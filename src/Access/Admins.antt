-- ===== src/Access/Admins.antt =====
-- Whether an administrator is left.
use e_callisto_ng.Prelude.{
  ℕ, ◌≡◌, refl, ◌∙◌, Bool, true, false, ◌&&◌, ◌||◌, Option-cases, inl, inr, Option, none, some,
  List, [], ◌∷◌, arith, ◌==◌, ==_refl, if◌then◌else◌,
}
use e_callisto_ng.Access.{
  Db, Reply, User, UserPatch, active_user, admin, checked, delete_found, delete_user, drop_user,
  fail, find_name, find_session, find_user, get_current_user, has_session, login, ok, patched,
  replace_user, require_role, role_satisfies, server_error, update_user,
}
use e_callisto_ng.Access.Sessions.{enter_ok, opened}

abbrev pub is_admin : User → Bool
is_admin u = u.active && role_satisfies u.role admin

abbrev pub has_admin : List User → Bool
has_admin [] = false
has_admin (u ∷ us) = is_admin u || has_admin us

-- An administrator beside the account of this id.
abbrev pub other_admin : ℕ → List User → Bool
other_admin i [] = false
other_admin i (u ∷ us) = if u.id == i then has_admin us else is_admin u || other_admin i us

found-has_admin :
    (i : ℕ) (us : List User) (u : User)
    → find_user i us ≡ some u
    → is_admin u ≡ true
    → has_admin us ≡ true
unfolding find_user role_satisfies
found-has_admin i [] u h a = cc
found-has_admin i (v ∷ us) u h a = ground (arith, found-has_admin i us u)

has_admin-replace_user :
    (i : ℕ) (new : User) (us : List User)
    → other_admin i us ≡ false
    → is_admin new ≡ false
    → has_admin (replace_user i new us) ≡ false
unfolding replace_user
has_admin-replace_user i new [] o n = refl
has_admin-replace_user i new (u ∷ us) o n = ground (arith, has_admin-replace_user i new us)

abbrev pub is_granted : Reply User → Bool
is_granted (ok u) = true
is_granted (fail s) = false

no_admin-admitted :
    (us : List User) (o : Option User) (i : ℕ)
    → find_user i us ≡ o
    → has_admin us ≡ false
    → is_granted (checked admin (active_user o)) ≡ false
no_admin-admitted us none i e h = refl
no_admin-admitted us (some u) i e h = ground (arith, found-has_admin i us u e)

-- Without an active administrator, no token is let through at any time.
no_admin-granted :
    (token : Option ℕ) (now : ℕ) (db : Db)
    → has_admin db.users ≡ false
    → is_granted (require_role admin token now db).1 ≡ false
unfolding require_role get_current_user
no_admin-granted none now db h = refl
no_admin-granted (some token) now db h = elim (Option-cases (find_session token db.sessions)) [
  | inl e ↦ rw e refl
  | inr (s, e) ↦
      rw e
        (ground (arith, no_admin-admitted db.users (find_user s.user_id db.users) s.user_id refl h))
]

-- Nothing keeps the last administrator: if no other account is an active administrator, changing
-- this one to a lower role, or switching it off, is accepted, and from then on the routes for
-- administrators refuse every token at any time.
update_user_locks_out :
    (i : ℕ) (p : UserPatch) (db : Db) (u : User) (token : Option ℕ) (now : ℕ)
    → find_user i db.users ≡ some u
    → is_admin (patched p u) ≡ false
    → other_admin u.id db.users ≡ false
    → ((update_user i p db).1 ≡ ok (patched p u))
      × (is_granted (require_role admin token now (update_user i p db).0).1 ≡ false)
unfolding update_user
update_user_locks_out i p db u token now found low alone = rw found (
  refl,
  no_admin-granted token now (record db { users = replace_user u.id (patched p u) db.users })
      (has_admin-replace_user u.id (patched p u) db.users alone low),
)

find_user-drop_user :
    (i k : ℕ) (us : List User) → (k == i) ≡ false → find_user i (drop_user k us) ≡ find_user i us
unfolding find_user drop_user
find_user-drop_user i k [] h = refl
find_user-drop_user i k (u ∷ us) h = ground (arith, find_user-drop_user i k us h)

abbrev pub delete_users : User → List ℕ → Db → Db
delete_users actor [] db = db
delete_users actor (i ∷ is) db = delete_users actor is (delete_user actor i db).0

delete_found-keeps :
    (actor : User) (db : Db) (o : Option User)
    → find_user actor.id (delete_found actor db o).0.users ≡ find_user actor.id db.users
delete_found-keeps actor db none = refl
delete_found-keeps actor db (some u) = ground (arith, find_user-drop_user actor.id u.id db.users)

-- Whatever accounts an administrator deletes, in whatever order, their own stays as it is, and so
-- the station keeps an administrator.
delete_users_keep_actor :
    (actor : User) (is : List ℕ) (db : Db)
    → find_user actor.id db.users ≡ some actor
    → is_admin actor ≡ true
    → (find_user actor.id (delete_users actor is db).users ≡ some actor)
      × (has_admin (delete_users actor is db).users ≡ true)
delete_users_keep_actor actor [] db found a =
    (found, found-has_admin actor.id db.users actor found a)
delete_users_keep_actor actor (i ∷ is) db found a =
    delete_users_keep_actor actor is (delete_user actor i db).0 (kept ∙ found) a
  where
    kept : find_user actor.id (delete_user actor i db).0.users ≡ find_user actor.id db.users
    kept = unfold delete_user in delete_found-keeps actor db (find_user i db.users)

delete_user-opened :
    (token now : ℕ) (db : Db) (u actor : User)
    → find_user u.id db.users ≡ some u
    → (u.id == actor.id) ≡ false
    → delete_user actor u.id (opened token now u db) ≡ (opened token now u db, fail server_error)
unfolding delete_user has_session
delete_user-opened token now db u actor found ne = rw (found, ne, ==_refl u.id) refl

-- An account that has logged in and not out cannot be deleted by anyone else: the request ends in a
-- server error and changes nothing.
delete_user_logged_in :
    (verify : List ℕ → ℕ → Bool) (username password : List ℕ) (token now : ℕ) (db : Db)
    (u actor : User)
    → (login verify username password token now db).1 ≡ ok u
    → find_user u.id db.users ≡ some u
    → (u.id == actor.id) ≡ false
    → let after = (login verify username password token now db).0 in
      delete_user actor u.id after ≡ (after, fail server_error)
unfolding login
delete_user_logged_in verify username password token now db u actor h found ne =
    let (entered, on) = enter_ok verify password token now db (find_name username db.users) u h in
    rw entered (delete_user-opened token now db u actor found ne)

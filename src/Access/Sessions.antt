-- ===== src/Access/Sessions.antt =====
-- What a session grants, and for how long.
use e_callisto_ng.Prelude.{
  ℕ, ◌+◌, ◌≡◌, refl, Bool, true, false, Option-cases, inl, inr, Option, none, some, List, [], ◌∷◌,
  arith, ltb, ==_refl, if◌then◌else◌,
}
use e_callisto_ng.Access.{
  Db, Reply, Role, Session, User, active_user, checked, drop_session, enter, fail, find_name,
  find_session, find_user, get_current_user, is_expired, login, logout, ok, optional_user,
  require_role, role_satisfies, session_user, session_ttl, unauthorized,
}

abbrev pub user_of : Reply User → Option User
user_of (ok u) = some u
user_of (fail s) = none

-- The dependency for pages, which lets guests through, knows exactly the users that the one for
-- routes admits.
optional_user_agrees :
    (token : Option ℕ) (now : ℕ) (db : Db)
    → optional_user token now db ≡ user_of (get_current_user token now db).1
unfolding optional_user get_current_user
optional_user_agrees none now db = refl
optional_user_agrees (some token) now db = ground arith

-- A session that admits a user.
pub record Admits (db : Db) (token now : ℕ) (u : User) : Type 0 where
  pub session : Session
  pub found : find_session token db.sessions ≡ some session
  pub unexpired : is_expired session.expires_at now ≡ false
  pub account : find_user session.user_id db.users ≡ some u
  pub enabled : u.active ≡ true

active_user_ok :
    (o : Option User) (u : User) → active_user o ≡ ok u → (o ≡ some u) × (u.active ≡ true)
active_user_ok none u h = cc
active_user_ok (some v) u h = (ground arith, ground arith)

session_user_ok :
    (now : ℕ) (db : Db) (s : Session) (u : User)
    → (session_user now db (some s)).1 ≡ ok u
    → (is_expired s.expires_at now ≡ false) × (active_user (find_user s.user_id db.users) ≡ ok u)
session_user_ok now db s u h = ground arith

checked_ok :
    (need : Role) (r : Reply User) (u : User)
    → checked need r ≡ ok u
    → (r ≡ ok u) × (role_satisfies u.role need ≡ true)
checked_ok need (fail s) u h = cc
checked_ok need (ok v) u h = (ground arith, ground arith)

current_user_Admits :
    (token now : ℕ) (db : Db) (u : User)
    → (get_current_user (some token) now db).1 ≡ ok u
    → Admits db token now u
unfolding get_current_user
current_user_Admits token now db u h = elim (Option-cases (find_session token db.sessions)) [
  | inl e ↦ cc (h, e)
  | inr (s, e) ↦
      let (live, known) = session_user_ok now db s u (rw e at h) in
      let (account, enabled) = active_user_ok (find_user s.user_id db.users) u known in
      record { session = s; found = e; unexpired = live; account = account; enabled = enabled }
]

-- A route that wants a role admits a user only by a token whose session has not expired, for the
-- account that the session names, which is active and meets the role.
pub require_role-Admits :
    (need : Role) (token now : ℕ) (db : Db) (u : User)
    → (require_role need (some token) now db).1 ≡ ok u
    → Admits db token now u × (role_satisfies u.role need ≡ true)
unfolding require_role
require_role-Admits need token now db u h =
    let (known, fits) = checked_ok need (get_current_user (some token) now db).1 u h in
    (current_user_Admits token now db u known, fits)

drop_session_lem : (t : ℕ) (ss : List Session) → find_session t (drop_session t ss) ≡ none
unfolding find_session drop_session
drop_session_lem t [] = refl
drop_session_lem t (s ∷ ss) = ground (arith, drop_session_lem t ss)

-- A logout revokes the token for good, at once and whatever the session's age.
logout_revokes :
    (token now : ℕ) (db : Db)
    → (get_current_user (some token) now (logout (some token) db)).1 ≡ fail unauthorized
unfolding get_current_user logout
logout_revokes token now db = rw (drop_session_lem token db.sessions) refl

abbrev pub opened : ℕ → ℕ → User → Db → Db
opened token now u db = record db {
  sessions = record { token = token; user_id = u.id; expires_at = now + session_ttl } ∷ db.sessions;
}

opened_lasts :
    (token now later : ℕ) (db : Db) (u : User)
    → find_user u.id db.users ≡ some u
    → u.active ≡ true
    → get_current_user (some token) later (opened token now u db) ≡ (
        if ltb (now + session_ttl) later
        then (
          record (opened token now u db) {
            sessions = drop_session token (opened token now u db).sessions;
          },
          fail unauthorized,
        )
        else (opened token now u db, ok u))
unfolding get_current_user find_session is_expired
opened_lasts token now later db u found on = rw (==_refl token, found) (simp on (refl))

module _ (verify : List ℕ → ℕ → Bool) where
  pub enter_ok :
      (password : List ℕ) (token now : ℕ) (db : Db) (o : Option User) (u : User)
      → (enter verify password token now db o).1 ≡ ok u
      → (enter verify password token now db o ≡ (opened token now u db, ok u)) × (u.active ≡ true)
  enter_ok password token now db none u h = cc
  enter_ok password token now db (some v) u h = (ground arith, ground arith)

  -- A login that succeeds gives a token that admits the same user for twelve hours and no longer, if
  -- the account is the one of its id: after them the token is refused and its session deleted.
  login_lasts :
      (username password : List ℕ) (token now later : ℕ) (db : Db) (u : User)
      → (login verify username password token now db).1 ≡ ok u
      → find_user u.id db.users ≡ some u
      → let after = (login verify username password token now db).0 in
        get_current_user (some token) later after ≡ (
          if ltb (now + session_ttl) later
          then (record after { sessions = drop_session token after.sessions }, fail unauthorized)
          else (after, ok u))
  unfolding login
  login_lasts username password token now later db u h found =
      let (entered, on) = enter_ok password token now db (find_name username db.users) u h in
      rw entered (opened_lasts token now later db u found on)

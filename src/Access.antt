-- ===== src/Access.antt =====
-- Accounts and sessions: src/ecallisto_ng/api/auth.py, api/routes/users.py, and the roles, users and
-- sessions of api/models.py. The password hasher, the random tokens and the ids that the database
-- gives to new rows are parameters; the audit log is left out, since writing it never fails a request.
pub mod Sessions
pub mod Admins
pub mod Wizard
pub mod Tests
use e_callisto_ng.Prelude.Text.{same_text}
use e_callisto_ng.Prelude.{
  ℕ, ◌+◌, Bool, true, false, not, ◌&&◌, Option, none, some, List, [], ◌∷◌, ◌++◌, ltb, leb, ◌==◌,
  if◌then◌else◌,
}

pub data Role : Type 0 where
  viewer operator admin : Role

abbrev order : Role → ℕ
order viewer = 0
order operator = 1
order admin = 2

-- Whether the first role meets the second.
unfoldable pub role_satisfies : Role → Role → Bool
role_satisfies have need = leb (order need) (order have)

pub record User : Type 0 where
  pub id : ℕ
  pub username : List ℕ
  pub password_hash : ℕ
  pub role : Role
  pub active : Bool

pub record Session : Type 0 where
  pub token : ℕ
  pub user_id : ℕ
  pub expires_at : ℕ

pub record Db : Type 0 where
  pub users : List User
  pub sessions : List Session

-- The status of an `HTTPException`, and `server_error` for an exception that no one handles.
pub data Status : Type 0 where
  bad_request unauthorized forbidden not_found conflict server_error : Status

pub data Reply {ℓ} (A : Type ℓ) : Type ℓ where
  ok : A → Reply A
  fail : Status → Reply A

-- seconds
abbrev pub session_ttl : ℕ
session_ttl = 43200

unfoldable pub find_user : ℕ → List User → Option User
find_user i [] = none
find_user i (u ∷ us) = if u.id == i then some u else find_user i us

unfoldable pub find_name : List ℕ → List User → Option User
find_name n [] = none
find_name n (u ∷ us) = if same_text u.username n then some u else find_name n us

unfoldable pub find_session : ℕ → List Session → Option Session
find_session t [] = none
find_session t (s ∷ ss) = if s.token == t then some s else find_session t ss

unfoldable pub drop_session : ℕ → List Session → List Session
drop_session t [] = []
drop_session t (s ∷ ss) = if s.token == t then drop_session t ss else s ∷ drop_session t ss

unfoldable pub is_expired : ℕ → ℕ → Bool
is_expired when now = ltb when now

abbrev active_user : Option User → Reply User
active_user none = fail unauthorized
active_user (some u) = if u.active then ok u else fail unauthorized

abbrev session_user : ℕ → Db → Option Session → Db × Reply User
session_user now db none = (db, fail unauthorized)
session_user now db (some s) =
    if is_expired s.expires_at now
    then (record db { sessions = drop_session s.token db.sessions }, fail unauthorized)
    else (db, active_user (find_user s.user_id db.users))

-- The dependency of every route that asks for a login; no cookie is none.
unfoldable pub get_current_user : Option ℕ → ℕ → Db → Db × Reply User
get_current_user none now db = (db, fail unauthorized)
get_current_user (some token) now db = session_user now db (find_session token db.sessions)

abbrev if_active : Option User → Option User
if_active none = none
if_active (some u) = if u.active then some u else none

abbrev session_guest : ℕ → Db → Option Session → Option User
session_guest now db none = none
session_guest now db (some s) =
    if is_expired s.expires_at now then none else if_active (find_user s.user_id db.users)

unfoldable pub optional_user : Option ℕ → ℕ → Db → Option User
optional_user none now db = none
optional_user (some token) now db = session_guest now db (find_session token db.sessions)

abbrev checked : Role → Reply User → Reply User
checked need (fail s) = fail s
checked need (ok u) = if role_satisfies u.role need then ok u else fail forbidden

-- `require_role`, with the login that it depends on.
unfoldable pub require_role : Role → Option ℕ → ℕ → Db → Db × Reply User
require_role need token now db =
    let (db', who) = get_current_user token now db in (db', checked need who)

unfoldable pub logout : Option ℕ → Db → Db
logout none db = db
logout (some token) db = record db { sessions = drop_session token db.sessions }

module _ (verify : List ℕ → ℕ → Bool) where
  abbrev enter : List ℕ → ℕ → ℕ → Db → Option User → Db × Reply User
  enter password token now db none = (db, fail unauthorized)
  enter password token now db (some u) =
      if u.active && verify password u.password_hash
      then (
        record db {
          sessions =
              record { token = token; user_id = u.id; expires_at = now + session_ttl }
              ∷ db.sessions;
        },
        ok u,
      )
      else (db, fail unauthorized)

  -- `token` is the new session's.
  unfoldable pub login : List ℕ → List ℕ → ℕ → ℕ → Db → Db × Reply User
  login username password token now db = enter password token now db (find_name username db.users)

module _ (hash : List ℕ → ℕ) (new_id : List User → ℕ) where
  abbrev pub new_user : List ℕ → List ℕ → Role → List User → User
  new_user username password role us = record {
    id = new_id us;
    username = username;
    password_hash = hash password;
    role = role;
    active = true;
  }

  unfoldable pub create_user : List ℕ → List ℕ → Role → Db → Db × User
  create_user username password role db =
      let u = new_user username password role db.users in
      (record db { users = db.users ++ u ∷ [] }, u)

  abbrev create_unless : List ℕ → List ℕ → Role → Db → Option User → Db × Reply User
  create_unless username password role db (some u) = (db, fail conflict)
  create_unless username password role db none =
      let (db', u) = create_user username password role db in (db', ok u)

  -- `POST /users`, once the admin is known.
  unfoldable pub create_user_route : List ℕ → List ℕ → Role → Db → Db × Reply User
  create_user_route username password role db =
      create_unless username password role db (find_name username db.users)

pub record UserPatch : Type 0 where
  pub role : Option Role
  pub active : Option Bool

abbrev set_role : Option Role → User → User
set_role none u = u
set_role (some r) u = record u { role = r }

abbrev set_active : Option Bool → User → User
set_active none u = u
set_active (some b) u = record u { active = b }

unfoldable pub patched : UserPatch → User → User
patched p u = set_active p.active (set_role p.role u)

unfoldable pub replace_user : ℕ → User → List User → List User
replace_user i new [] = []
replace_user i new (u ∷ us) = if u.id == i then new ∷ us else u ∷ replace_user i new us

abbrev update_found : UserPatch → Db → Option User → Db × Reply User
update_found p db none = (db, fail not_found)
update_found p db (some u) =
    (record db { users = replace_user u.id (patched p u) db.users }, ok (patched p u))

unfoldable pub update_user : ℕ → UserPatch → Db → Db × Reply User
update_user i p db = update_found p db (find_user i db.users)

unfoldable pub drop_user : ℕ → List User → List User
drop_user i [] = []
drop_user i (u ∷ us) = if u.id == i then us else u ∷ drop_user i us

unfoldable pub has_session : ℕ → List Session → Bool
has_session i [] = false
has_session i (s ∷ ss) = if s.user_id == i then true else has_session i ss

abbrev delete_found : User → Db → Option User → Db × Reply (Unit {0})
delete_found actor db none = (db, fail not_found)
delete_found actor db (some u) =
    if u.id == actor.id
    then (db, fail bad_request)
    else if has_session u.id db.sessions
    then (db, fail server_error)
    else (record db { users = drop_user u.id db.users }, ok tt)

-- The database refuses to delete a user that a session refers to, and the commit's exception is not
-- handled.
unfoldable pub delete_user : User → ℕ → Db → Db × Reply (Unit {0})
delete_user actor i db = delete_found actor db (find_user i db.users)

-- ===== src/Access/Tests.antt =====
-- A station with one administrator and one viewer, and one that is not set up yet. Passwords hash to
-- their first code point.
use e_callisto_ng.Prelude.Text.{codes}
use e_callisto_ng.Prelude.{
  ℕ, ◌≡◌, refl, Bool, true, false, ◌&&◌, none, some, List, [], ◌∷◌, ◌==◌, ==_refl,
}
use e_callisto_ng.Access.{
  Db, User, UserPatch, admin, create_user, find_name, find_session, find_user, get_current_user,
  is_expired, login, new_user, ok, patched, require_role, role_satisfies, viewer,
}
use e_callisto_ng.Access.Sessions.{Admits, require_role-Admits}
use e_callisto_ng.Legacy.Program.{key_value}
use e_callisto_ng.Legacy.Station.{StationConfig, parse_callisto_cfg, signed}
use e_callisto_ng.Access.Wizard.{
  Site, is_configured, wizard_submit, updated, finalize, numbers_read,
}
use e_callisto_ng.Access.Wizard.Setup.{submit, wizard_paste_unlocked}

abbrev first : List ℕ → ℕ
first [] = 0
first (c ∷ cs) = c

abbrev matches : List ℕ → ℕ → Bool
matches p h = first p == h

abbrev next_id : List User → ℕ
next_id [] = 1
next_id (u ∷ us) = 2

abbrev chief : User
chief = record { id = 1; username = codes "ana"; password_hash = 98; role = admin; active = true }

abbrev guest : User
guest = record { id = 2; username = codes "bo"; password_hash = 99; role = viewer; active = true }

abbrev station : Db
station = record {
  users = chief ∷ guest ∷ [];
  sessions = record { token = 77; user_id = 1; expires_at = 5000 } ∷ [];
}

chief_enters : (require_role admin (some 77) 4000 station).1 ≡ ok chief
unfolding require_role get_current_user find_session is_expired find_user role_satisfies
chief_enters = refl

require_role-Admits_example :
    Admits station 77 4000 chief × (role_satisfies chief.role admin ≡ true)
require_role-Admits_example = require_role-Admits admin 77 4000 station chief chief_enters

guest_enters : (login matches (codes "bo") (codes "cat") 78 4000 station).1 ≡ ok guest
unfolding login find_name
guest_enters = refl

guest_found : find_user 2 station.users ≡ some guest
unfolding find_user
guest_found = refl

abbrev entered : Db
entered = (login matches (codes "bo") (codes "cat") 78 4000 station).0

chief_found : find_user 1 station.users ≡ some chief
unfolding find_user
chief_found = refl

chief_rules : (chief.active && role_satisfies chief.role admin) ≡ true
unfolding role_satisfies
chief_rules = refl

abbrev demotion : UserPatch
demotion = record { role = some viewer; active = none }

demoted :
    ((patched demotion chief).active && role_satisfies (patched demotion chief).role admin) ≡ false
unfolding patched role_satisfies
demoted = refl

guest_is_none : (guest.active && role_satisfies guest.role admin) ≡ false
unfolding role_satisfies
guest_is_none = refl

abbrev any_text : List ℕ → Bool
any_text t = true

abbrev shown : Bool → List ℕ → List ℕ
shown true t = 45 ∷ t
shown false t = t

abbrev zurich : StationConfig
zurich = record {
  instrument = [];
  origin = codes "ZURICH";
  titlecomment = [];
  latitude = codes "47.4";
  longitude = codes "0.0";
  altitude = codes "408";
  focus_code = codes "1";
  gain = codes "120";
}

abbrev zurich_text : List ℕ
zurich_text = codes "origin]=ZURICH\n[latitude]=N,47.4\n[height]=408 // m"

zurich_is_read : parse_callisto_cfg any_text any_text shown (91 ∷ zurich_text) ≡ some zurich
unfolding parse_callisto_cfg signed key_value
zurich_is_read = refl

-- A height that is no number fails the request.
height_refused : parse_callisto_cfg (λ t. false) any_text shown (codes "[height]=abc") ≡ none
unfolding parse_callisto_cfg key_value
height_refused = refl

abbrev blank : Site
blank = record {
  db = record { users = []; sessions = [] };
  wizard = none;
  station = none;
  instruments = [];
}

matches_hash : (p : List ℕ) → matches p (first p) ≡ true
matches_hash p = ==_refl (first p)

abbrev after_paste : Site
after_paste =
    (submit first matches next_id any_text any_text shown 5 0 [] (λ k. none)
      (submit first matches next_id any_text any_text shown 5 0 (91 ∷ zurich_text) (λ k. none)
        blank).0).0

wizard_paste_unlocked_example :
    (login matches (codes "admin") [] 6 9 after_paste.db).1
    ≡ ok (new_user first next_id (codes "admin") [] admin [])
wizard_paste_unlocked_example =
    wizard_paste_unlocked first matches next_id any_text any_text shown matches_hash 5 0 91
      zurich_text zurich blank 6 9 zurich_is_read refl refl

abbrev reviewed : Site
reviewed = record blank { wizard = some (record { step = 4; answers = λ k. none }) }

blank_is_open : is_configured reviewed.db ≡ false
unfolding is_configured
blank_is_open = refl

now_closed :
    is_configured
      (wizard_submit first matches next_id any_text any_text shown 5 0 [] (λ k. none) reviewed).0.db
    ≡ true
unfolding is_configured wizard_submit finalize numbers_read updated create_user login find_name
now_closed = refl

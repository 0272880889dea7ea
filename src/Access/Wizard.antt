-- ===== src/Access/Wizard.antt =====
-- The first-run wizard, src/ecallisto_ng/api/routes/wizard.py with is_configured of api/setup.py.
-- A form, and the answers gathered so far, are maps from keys to texts; a pasted callisto.cfg is read
-- as in Legacy/Station. Which texts `float` and `int` accept and how a float is shown are parameters:
-- the numbers among the answers stay texts. Texts come stripped of blanks at their ends.
use e_callisto_ng.Prelude.Text.{codes}
use e_callisto_ng.Prelude.{
  ℕ, ◌+◌, Bool, true, false, Option, none, some, List, [], ◌∷◌, ◌++◌, ◌&&◌, ltb, ◌==◌,
  if◌then◌else◌,
}
use e_callisto_ng.Legacy.Station.{StationConfig, parse_callisto_cfg}
use e_callisto_ng.Access.{Db, Reply, Role, User, admin, create_user, login}
pub mod Setup

pub data Key : Type 0 where
  admin_username admin_password station_name observatory latitude_deg longitude_deg altitude_m : Key
  instrument_name instrument_class address channels : Key

abbrev pub Answers : Type 0
Answers = Key → Option (List ℕ)

-- `admin`, `station`, `coordinates`, `instrument`, `review`
abbrev pub final_step : ℕ
final_step = 4

pub record WizardState : Type 0 where
  pub step : ℕ
  pub answers : Answers

abbrev pub fresh_state : WizardState
fresh_state = record { step = 0; answers = λ k. none }

pub record Site : Type 0 where
  pub db : Db
  -- the wizard's row, created on first use
  pub wizard : Option WizardState
  pub station : Option Answers
  pub instruments : List Answers

-- Where a request is sent next.
pub data Next : Type 0 where
  home wizard_page portal login_failed server_error : Next

abbrev is_empty {ℓ} : {A : Type ℓ} → List A → Bool
is_empty [] = true
is_empty (x ∷ xs) = false

unfoldable pub is_configured : Db → Bool
is_configured db = if is_empty db.users then false else true

abbrev or_fresh : Option WizardState → WizardState
or_fresh none = fresh_state
or_fresh (some s) = s

abbrev newer : Option (List ℕ) → Option (List ℕ) → Option (List ℕ)
newer none old = old
newer (some v) old = some v

-- `data.update(form)`
unfoldable pub updated : Answers → Answers → Answers
updated form data_so_far k = newer (form k) (data_so_far k)

abbrev get : Option (List ℕ) → List ℕ → List ℕ
get none d = d
get (some v) d = v

abbrev either : List ℕ → List ℕ → List ℕ
either [] d = d
either (c ∷ cs) d = c ∷ cs

-- The answers that a pasted configuration gives.
abbrev of_config : StationConfig → Answers → Answers
of_config cfg old observatory = some cfg.origin
of_config cfg old station_name = some (either cfg.origin (get (old station_name) (codes "station")))
of_config cfg old latitude_deg = some cfg.latitude
of_config cfg old longitude_deg = some cfg.longitude
of_config cfg old altitude_m = some cfg.altitude
of_config cfg old instrument_name = some cfg.instrument
of_config cfg old k = old k

module _ (hash : List ℕ → ℕ) (verify : List ℕ → ℕ → Bool) (new_id : List User → ℕ)
    (floats ints : List ℕ → Bool) (shown : Bool → List ℕ → List ℕ) where
  abbrev landing : Reply User → Next
  landing (Reply.ok u) = portal
  landing (Reply.fail s) = login_failed

  abbrev admin_name : Answers → List ℕ
  admin_name a = get (a admin_username) (codes "admin")

  abbrev admin_secret : Answers → List ℕ
  admin_secret a = get (a admin_password) []

  abbrev named : Answers → List ℕ → List Answers
  named a [] = []
  named a (c ∷ cs) = a ∷ []

  abbrev reads_as : (List ℕ → Bool) → Option (List ℕ) → Bool
  reads_as p none = true
  reads_as p (some []) = true
  reads_as p (some (c ∷ cs)) = p (c ∷ cs)

  abbrev channels_read : List ℕ → Option (List ℕ) → Bool
  channels_read [] o = true
  channels_read (c ∷ cs) o = reads_as ints o

  -- Whether no conversion of `_finalize` raises.
  unfoldable pub numbers_read : Answers → Bool
  numbers_read a =
      reads_as floats (a latitude_deg)
      && (reads_as floats (a longitude_deg)
          && (reads_as floats (a altitude_m)
              && channels_read (get (a instrument_name) []) (a channels)))

  abbrev established : ℕ → ℕ → Answers → Db → Site → Site × Next
  established token now a db s =
      let (db', who) = login verify (admin_name a) (admin_secret a) token now db in
      (
        record {
          db = db';
          wizard = none;
          station = some a;
          instruments = s.instruments ++ named a (get (a instrument_name) []);
        },
        landing who,
      )

  -- `_finalize`: the account, committed at once, then the station, an instrument if it has a name,
  -- and the login.
  unfoldable pub finalize : ℕ → ℕ → Answers → Site → Site × Next
  finalize token now a s =
      let (db, u) = create_user hash new_id (admin_name a) (admin_secret a) admin s.db in
      if numbers_read a then established token now a db s else (record s { db = db }, server_error)

  -- A configuration that is not read fails the request, and the wizard stays where it stands.
  abbrev pasted : Option StationConfig → WizardState → Site → Site × Next
  pasted none st s = (record s { wizard = some st }, server_error)
  pasted (some cfg) st s = (
    record s { wizard = some (record { step = final_step; answers = of_config cfg st.answers }) },
    wizard_page,
  )

  -- One request with a form and what was pasted into its `callisto_cfg` field.
  abbrev advance : ℕ → ℕ → List ℕ → Answers → WizardState → Site → Site × Next
  advance token now (c ∷ cs) form st s = pasted (parse_callisto_cfg floats ints shown (c ∷ cs)) st s
  advance token now [] form st s =
      if ltb st.step final_step
      then (
        record s {
          wizard = some (record { step = st.step + 1; answers = updated form st.answers });
        },
        wizard_page,
      )
      else finalize token now (updated form st.answers) s

  unfoldable pub wizard_submit : ℕ → ℕ → List ℕ → Answers → Site → Site × Next
  wizard_submit token now cfg form s =
      if is_configured s.db then (s, home) else advance token now cfg form (or_fresh s.wizard) s

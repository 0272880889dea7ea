-- ===== src/Backup.antt =====
-- Backup and restore of the configuration, src/ecallisto_ng/services/config_backup.py, over the
-- eight tables and the upload jobs. A row is its id, its foreign keys as
-- src/ecallisto_ng/api/models.py declares them, and its other columns. What is outside are
-- parameters: the JSON of a row (`dump` and `validate`, none for a validation error), and
-- whether SQLite accepts the inserts of a commit. A delete is refused while a row of another
-- table refers to a row that it deletes (`foreign_keys` is on, src/ecallisto_ng/api/db.py).
use e_callisto_ng.Prelude.{
  ℕ, Bool, true, false, ◌||◌, Option, none, some, is_some, List, [], ◌∷◌, ◌++◌, map, length,
  if◌then◌else◌,
}
pub mod Restore
mod Tests

pub data Key : Type 0 where
  calibration_sets : Key
  programs : Key
  stations : Key
  instruments : Key
  schedules : Key
  upload_targets : Key
  access : Key
  peers : Key

-- `_TABLES`
abbrev pub tables : List Key
tables =
    calibration_sets ∷ programs ∷ stations ∷ instruments ∷ schedules ∷ upload_targets ∷ access
    ∷ peers ∷ []

abbrev pub reversed_tables : List Key
reversed_tables =
    peers ∷ access ∷ upload_targets ∷ schedules ∷ instruments ∷ stations ∷ programs
    ∷ calibration_sets ∷ []

pub record Row : Type 0 where
  pub id : ℕ
  pub program_id : Option ℕ
  pub calibration_set_id : Option ℕ
  pub instrument_id : Option ℕ
  pub columns : List ℕ

pub record Database : Type 0 where
  pub calibration_sets : List Row
  pub programs : List Row
  pub stations : List Row
  pub instruments : List Row
  pub schedules : List Row
  pub upload_targets : List Row
  pub access : List Row
  pub peers : List Row
  -- the targets of the upload jobs
  pub upload_jobs : List ℕ

abbrev pub table : Key → Database → List Row
table calibration_sets db = db.calibration_sets
table programs db = db.programs
table stations db = db.stations
table instruments db = db.instruments
table schedules db = db.schedules
table upload_targets db = db.upload_targets
table access db = db.access
table peers db = db.peers

abbrev pub with_table : Key → List Row → Database → Database
with_table calibration_sets rows db = record db { calibration_sets = rows }
with_table programs rows db = record db { programs = rows }
with_table stations rows db = record db { stations = rows }
with_table instruments rows db = record db { instruments = rows }
with_table schedules rows db = record db { schedules = rows }
with_table upload_targets rows db = record db { upload_targets = rows }
with_table access rows db = record db { access = rows }
with_table peers rows db = record db { peers = rows }

abbrev pub any_refers : (Row → Option ℕ) → List Row → Bool
any_refers column [] = false
any_refers column (r ∷ rs) = is_some (column r) || any_refers column rs

abbrev pub is_some_job : List ℕ → Bool
is_some_job [] = false
is_some_job (target ∷ jobs) = true

-- A row of another table refers to the table, by the foreign keys.
abbrev pub is_referred : Key → Database → Bool
is_referred calibration_sets db = any_refers (λ r. r.calibration_set_id) db.instruments
is_referred programs db =
    any_refers (λ r. r.program_id) db.instruments || any_refers (λ r. r.program_id) db.schedules
is_referred instruments db = any_refers (λ r. r.instrument_id) db.schedules
is_referred upload_targets db = is_some_job db.upload_jobs
is_referred _ db = false

-- `none` is the IntegrityError.
abbrev pub delete_table : Key → Option Database → Option Database
delete_table k none = none
delete_table k (some db) = if is_referred k db then none else some (with_table k [] db)

abbrev pub delete_tables : List Key → Option Database → Option Database
delete_tables [] o = o
delete_tables (k ∷ ks) o = delete_tables ks (delete_table k o)

-- The commit of the rows, if the constraints hold.
abbrev pub committed_if : Bool → Database → Database → Bool × Database
committed_if true filled cleared = (true, filled)
committed_if false filled cleared = (false, cleared)

module _ {A : Type 0} (dump : Key → Row → A) (validate : Key → A → Option Row)
    (accepts : Database → Bool) where
  -- `data`, with the rows of each table
  unfoldable pub export_config : Database → Key → List A
  export_config db k = map (dump k) (table k db)

  abbrev pub added : Option Row → Option (List Row) → Option (List Row)
  added none rows = none
  added (some r) none = none
  added (some r) (some rs) = some (r ∷ rs)

  abbrev pub validated : Key → List A → Option (List Row)
  validated k [] = some []
  validated k (a ∷ as') = added (validate k a) (validated k as')

  abbrev pub add_table : Key → Option (List Row) → Option Database → Option Database
  add_table k rows none = none
  add_table k none (some db) = none
  add_table k (some rows) (some db) = some (with_table k (table k db ++ rows) db)

  -- The loop that adds the rows, table by table; `none` is the ValidationError.
  abbrev pub add_tables : List Key → (Key → List A) → Option Database → Option Database
  add_tables [] backup o = o
  add_tables (k ∷ ks) backup o = add_tables ks backup (add_table k (validated k (backup k)) o)

  abbrev pub committed : Database → Option Database → Bool × Database
  committed cleared none = (false, cleared)
  committed cleared (some filled) = committed_if (accepts filled) filled cleared

  abbrev pub restored : (Key → List A) → Database → Option Database → Bool × Database
  restored backup db none = (false, db)
  restored backup db (some cleared) = committed cleared (add_tables tables backup (some cleared))

  -- Whether it returns, and the database after it. The deletion is committed before the rows are
  -- added; what was not committed is rolled back.
  unfoldable pub import_config : (Key → List A) → Database → Bool × Database
  import_config backup db = restored backup db (delete_tables reversed_tables (some db))

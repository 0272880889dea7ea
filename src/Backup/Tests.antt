-- ===== src/Backup/Tests.antt =====
-- A station with one instrument on one program, saved and restored; a row is its own JSON here.
use e_callisto_ng.Prelude.{ℕ, ◌≡◌, refl, true, false, Option, none, some, [], ◌∷◌}
use e_callisto_ng.Backup.{Database, Key, Row, export_config, import_config, schedules}
use e_callisto_ng.Backup.Restore.{cleared, import_config-export_config, import_config_fails}

abbrev plain_row : ℕ → Row
plain_row i = record {
  id = i;
  program_id = none;
  calibration_set_id = none;
  instrument_id = none;
  columns = i ∷ [];
}

abbrev saved : Database
saved = record {
  calibration_sets = [];
  programs = plain_row 4 ∷ [];
  stations = plain_row 1 ∷ [];
  instruments = record (plain_row 2) { program_id = some 4 } ∷ [];
  schedules = record (plain_row 9) { instrument_id = some 2 } ∷ [];
  upload_targets = plain_row 6 ∷ [];
  access = [];
  peers = [];
  upload_jobs = [];
}

abbrev other_station : Database
other_station = record (cleared saved) { stations = plain_row 1 ∷ plain_row 2 ∷ [] }

-- The same station, once it has uploaded a file.
abbrev with_history : Database
with_history = record saved { upload_jobs = 6 ∷ [] }

abbrev dump_row : Key → Row → Row
dump_row k r = r

abbrev read_row : Key → Row → Option Row
read_row k r = some r

-- A reader that knows no schedules.
abbrev read_older : Key → Row → Option Row
read_older schedules r = none
read_older _ r = some r

import_config-export_config_example :
    import_config dump_row read_row
      (λ db. true)
      (export_config dump_row read_row (λ db. true) saved)
      other_station
    ≡ (true, saved)
import_config-export_config_example =
    import_config-export_config dump_row read_row (λ db. true) (λ k r. refl) saved other_station
      refl

history_refuses :
    import_config dump_row read_row
      (λ db. true)
      (export_config dump_row read_row (λ db. true) saved)
      with_history
    ≡ (false, with_history)
history_refuses =
    import_config-export_config dump_row read_row (λ db. true) (λ k r. refl) saved with_history refl

older_fails :
    (import_config dump_row read_older
      (λ db. true)
      (export_config dump_row read_older (λ db. true) saved)
      saved).0
    ≡ false
unfolding import_config export_config
older_fails = refl

import_config_fails_example :
    (import_config dump_row read_older
      (λ db. true)
      (export_config dump_row read_older (λ db. true) saved)
      saved).1
    ≡ cleared saved
import_config_fails_example =
    import_config_fails dump_row read_older (λ db. true)
      (export_config dump_row read_older (λ db. true) saved) saved older_fails

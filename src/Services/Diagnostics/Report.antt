-- ===== src/Services/Diagnostics/Report.antt =====
-- The rest of the self-check of src/ecallisto_ng/services/diagnostics.py: the services, the clock,
-- the disk, and the report.
use e_callisto_ng.Prelude.Text.{codes, same_text}
use e_callisto_ng.Prelude.Lines.{lines_after}
use e_callisto_ng.Prelude.Int.{ℤ, pos, negsuc}
use e_callisto_ng.Prelude.{
  ℕ, ◌*◌, Bool, true, false, Option, none, some, List, [], ◌∷◌, ◌++◌, ltb, if◌then◌else◌, ◌==◌,
}
use e_callisto_ng.Legacy.{read_int}
use e_callisto_ng.Services.Diagnostics.{
  Check, Host, Level, Station, check_processes, check_recorder_liveness, check_serial_ports, fail,
  healthy, rank, reported, warn,
}

abbrev prefixed : ℕ → Option (List ℕ × List ℕ) → Option (List ℕ × List ℕ)
prefixed c none = none
prefixed c (some (key, value)) = some (c ∷ key, value)

-- `line.split("=", 1)`, where the line has the sign
abbrev pub pair_of : List ℕ → Option (List ℕ × List ℕ)
pair_of [] = none
pair_of (c ∷ cs) = let rest = pair_of cs in if c == 61 then some ([], cs) else prefixed c rest

abbrev or_earlier : List ℕ → Option (List ℕ × List ℕ) → Option (List ℕ) → Option (List ℕ)
or_earlier key pair (some value) = some value
or_earlier key none none = none
or_earlier key (some (k, value)) none = if same_text k key then some value else none

-- `dict(...).get(key)`: the last line counts.
abbrev pub lookup : List ℕ → List (List ℕ) → Option (List ℕ)
lookup key [] = none
lookup key (l ∷ ls) = or_earlier key (pair_of l) (lookup key ls)

abbrev or_default : List ℕ → Option (List ℕ) → List ℕ
or_default other none = other
or_default other (some value) = value

abbrev or_text : List ℕ → List ℕ → List ℕ
or_text other [] = other
or_text other (c ∷ cs) = c ∷ cs

abbrev pub is_crash_looping : ℤ → Bool
is_crash_looping (pos n) = ltb 5 n
is_crash_looping (negsuc n) = false

abbrev pub is_active : List (List ℕ) → Bool
is_active ls = same_text (or_default (codes "?") (lookup (codes "ActiveState") ls)) (codes "active")

abbrev pub unit_level : Bool → Option ℤ → Option Level
unit_level active none = none
unit_level false (some restarts) = some fail
unit_level true (some restarts) = if is_crash_looping restarts then some warn else some healthy

abbrev pub restarts_of : List (List ℕ) → Option ℤ
restarts_of ls =
    read_int (or_text (codes "0") (or_default (codes "0") (lookup (codes "NRestarts") ls)))

-- A unit's status; `none` is the ValueError of its restarts.
abbrev pub shown_level : Option (List ℕ) → Option Level
shown_level none = some healthy
shown_level (some stdout) =
    let ls = lines_after false stdout in unit_level (is_active ls) (restarts_of ls)

abbrev pub with_unit : List ℕ → Option Level → Option (List Check) → Option (List Check)
with_unit unit none rest = none
with_unit unit (some level) none = none
with_unit unit (some level) (some rest) = some (reported (codes "service:" ++ unit) level ∷ rest)

abbrev pub check_units : Host → List (List ℕ) → Option (List Check)
check_units h [] = some []
check_units h (unit ∷ units) = with_unit unit (shown_level (h.show unit)) (check_units h units)

abbrev pub units : List (List ℕ)
units = codes "ecallisto-web" ∷ codes "ecallisto-acquire" ∷ []

-- `_check_services`
unfoldable pub check_services : Host → Option (List Check)
check_services h = check_units h units

abbrev pub clock_level : Option Bool → Level
clock_level none = healthy
clock_level (some synced) = if synced then healthy else warn

-- `_check_clock`
unfoldable pub check_clock : Host → Check
check_clock h = reported (codes "clock") (clock_level h.synced)

abbrev is_tight : ℕ → ℕ → Bool
is_tight free total = if total == 0 then true else ltb (free * 100) (10 * total)

abbrev pub disk_level : Option (ℕ × ℕ) → Level
disk_level none = fail
disk_level (some (free, total)) =
    if ltb free 1_000_000_000 then fail else if is_tight free total then warn else healthy

-- `_check_disk`
unfoldable pub check_disk : Host → Check
check_disk h = reported (codes "disk") (disk_level h.disk)

-- The loop over the checks.
abbrev pub worst : Level → List Check → Level
worst level [] = level
worst level (c ∷ cs) = worst (if ltb (rank level) (rank c.status) then c.status else level) cs

pub record Report : Type 0 where
  pub status : Level
  pub checks : List Check

abbrev pub report_of : Host → Station → Option (List Check) → Option Report
report_of h s none = none
report_of h s (some services) =
    let checks =
      check_processes h ∷ check_serial_ports h s.instruments
      ++ check_recorder_liveness h s.instruments s.rows
      ++ services
      ++ (check_clock h ∷ check_disk h ∷ []) in
    some (record { status = worst healthy checks; checks = checks })

-- `none` is an exception.
unfoldable pub run_self_check : Host → Station → Option Report
run_self_check h s = report_of h s (check_services h)

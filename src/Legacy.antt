-- ===== src/Legacy.antt =====
-- The configuration files of the legacy software: src/ecallisto_ng/services/legacy_export.py writes
-- them, and src/ecallisto_ng/services/legacy_import.py reads them. Here is scheduler.cfg; a digit is
-- an ASCII one, and upper case is that of ASCII letters.
use e_callisto_ng.Prelude.Text.{codes}
use e_callisto_ng.Prelude.Decimal.{padded}
use e_callisto_ng.Prelude.Split.{split}
use e_callisto_ng.Prelude.Lines.{lines_after, strip}
use e_callisto_ng.Prelude.Int.{ℤ, pos, sub_ℕ}
use e_callisto_ng.Prelude.{
  ℕ, ◌+◌, ◌-◌, ◌*◌, Bool, true, false, not, ◌&&◌, ◌||◌, Option, none, some, List, [], ◌∷◌, ◌++◌,
  length, leb, ltb, if◌then◌else◌, ◌==◌,
}
pub mod Schedule
pub mod Program
pub mod Sun
pub mod Station
mod Tests

abbrev pub is_digit : ℕ → Bool
is_digit c = leb 48 c && leb c 57

-- The digits of `int`, which may be set apart by single underscores; the flag says that a digit came
-- just before.
abbrev pub read_digits : Bool → ℕ → List ℕ → Option ℕ
read_digits after acc [] = if after then some acc else none
read_digits after acc (c ∷ cs) =
    let next = read_digits true (acc * 10 + (c - 48)) cs in
    let apart = read_digits false acc cs in
    if is_digit c then next else if after && c == 95 then apart else none

abbrev pub positive : Option ℕ → Option ℤ
positive none = none
positive (some n) = some (pos n)

abbrev pub negative : Option ℕ → Option ℤ
negative none = none
negative (some n) = some (sub_ℕ 0 n)

abbrev pub read_signed : List ℕ → Option ℤ
read_signed [] = none
read_signed (c ∷ cs) =
    if c == 45
    then negative (read_digits false 0 cs)
    else if c == 43
    then positive (read_digits false 0 cs)
    else positive (read_digits false 0 (c ∷ cs))

-- `int(text)`; `none` is the ValueError.
unfoldable pub read_int : List ℕ → Option ℤ
read_int text = read_signed (strip text)

abbrev pub upper : ℕ → ℕ
upper c = if leb 97 c && leb c 122 then c - 32 else c

pub record ScheduleEntry : Type 0 where
  pub time_utc : List ℕ
  pub focus_code : ℤ
  pub mode : ℕ
  pub program : List ℕ

abbrev pub program_of : List (List ℕ) → List ℕ
program_of [] = []
program_of (p ∷ ps) = strip p

abbrev pub entry : List ℕ → Option ℤ → List ℕ → List ℕ → Option ScheduleEntry
entry time (some focus) (m ∷ ms) program =
    some (record { time_utc = time; focus_code = focus; mode = upper m; program = program })
entry time focus mode program = none

abbrev pub of_parts : List (List ℕ) → Option ScheduleEntry
of_parts (time ∷ focus ∷ mode ∷ rest) = entry time (read_int focus) (strip mode) (program_of rest)
of_parts _ = none

abbrev pub of_line : List ℕ → Option ScheduleEntry
of_line [] = none
of_line (c ∷ cs) = if is_digit c then of_parts (split 44 (c ∷ cs)) else none

abbrev pub kept : Option ScheduleEntry → List ScheduleEntry → List ScheduleEntry
kept none es = es
kept (some e) es = e ∷ es

abbrev pub read_lines : List (List ℕ) → List ScheduleEntry
read_lines [] = []
read_lines (l ∷ ls) = kept (of_line (strip l)) (read_lines ls)

unfoldable pub parse_scheduler_cfg : List ℕ → List ScheduleEntry
parse_scheduler_cfg text = read_lines (lines_after false text)

pub record ExportEntry : Type 0 where
  pub time_utc : List ℕ
  pub focus_code : ℕ
  pub mode : List ℕ
  pub program : List ℕ

-- `<=` of two texts
abbrev pub text_le : List ℕ → List ℕ → Bool
text_le [] ds = true
text_le (c ∷ cs) [] = false
text_le (c ∷ cs) (d ∷ ds) = ltb c d || (c == d && text_le cs ds)

abbrev pub insert_entry : ExportEntry → List ExportEntry → List ExportEntry
insert_entry e [] = e ∷ []
insert_entry e (f ∷ fs) =
    let rest = insert_entry e fs in if text_le e.time_utc f.time_utc then e ∷ f ∷ fs else f ∷ rest

-- `sorted(entries, key=...)`, which keeps the order of equal times
abbrev pub by_time : List ExportEntry → List ExportEntry
by_time [] = []
by_time (e ∷ es) = insert_entry e (by_time es)

abbrev pub with_seconds : List ℕ → List ℕ
with_seconds time = if length time == 8 then time else time ++ codes ":00"

abbrev pub program_column : List ℕ → List ℕ
program_column [] = []
program_column (c ∷ cs) = 44 ∷ c ∷ cs

abbrev pub line_of : ExportEntry → List ℕ
line_of e =
    with_seconds e.time_utc
    ++ 44 ∷ (padded 2 e.focus_code ++ 44 ∷ (e.mode ++ program_column e.program))

-- Every line ends with a carriage return and a line feed.
abbrev pub joined_lines : List (List ℕ) → List ℕ
joined_lines [] = []
joined_lines (l ∷ ls) = l ++ 13 ∷ 10 ∷ joined_lines ls

abbrev pub entry_lines : List ExportEntry → List (List ℕ)
entry_lines [] = []
entry_lines (e ∷ es) = line_of e ∷ entry_lines es

unfoldable pub build_scheduler_cfg : List ExportEntry → List ℕ
build_scheduler_cfg entries =
    joined_lines
      (codes "// scheduler.cfg exported by e-Callisto NG" ∷ entry_lines (by_time entries))

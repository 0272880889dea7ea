-- ===== src/Fits/Names.antt =====
-- The name of a file, and the day under which it is archived: `_observation_time` and
-- `archive_file` of src/ecallisto_ng/services/uploader_service.py. Digits are the ASCII ones.
use e_callisto_ng.Prelude.Decimal.{padded, value_on}
use e_callisto_ng.Prelude.Split.{cut, split}
use e_callisto_ng.Prelude.{
  ℕ, ◌+◌, ◌%◌, ◌≤◌, ◌<◌, Bool, true, false, not, ◌&&◌, ◌||◌, Option, none, some, List, [], ◌∷◌,
  ◌++◌, all, length, leb, ltb, if◌then◌else◌, ◌==◌,
}
use e_callisto_ng.Fits.{Moment}
pub mod Archive

abbrev pub is_digit : ℕ → Bool
is_digit c = leb 48 c && leb c 57

-- `len(token) == n and token.isdigit()`
abbrev pub has_digits : ℕ → List ℕ → Bool
has_digits n token = length token == n && all is_digit token

abbrev pub is_leap : ℕ → Bool
is_leap y = y % 4 == 0 && (not (y % 100 == 0) || y % 400 == 0)

unfoldable pub days_in_month : ℕ → ℕ → ℕ
days_in_month y m =
    if m == 2
    then (if is_leap y then 29 else 28)
    else if m == 4 || m == 6 || m == 9 || m == 11
    then 30
    else 31

-- What `datetime` accepts.
unfoldable pub is_valid : Moment → Bool
is_valid t =
    leb 1 t.year
    && (leb 1 t.month
        && (leb t.month 12
            && (leb 1 t.day
                && (leb t.day (days_in_month t.year t.month)
                    && (ltb t.hour 24 && (ltb t.minute 60 && ltb t.second 60))))))

-- The fields of fourteen digits.
unfoldable pub fields : List ℕ → Moment
fields text =
    let (year, a) = cut 4 text in
    let (month, b) = cut 2 a in
    let (day, c) = cut 2 b in
    let (hour, d) = cut 2 c in
    let (minute, second) = cut 2 d in
    record {
      year = value_on 0 year;
      month = value_on 0 month;
      day = value_on 0 day;
      hour = value_on 0 hour;
      minute = value_on 0 minute;
      second = value_on 0 second;
    }

abbrev pub accepted : Moment → Option Moment
accepted t = if is_valid t then some t else none

-- The time of the day in the token that follows, or midnight.
abbrev pub clock_part : List (List ℕ) → List ℕ
clock_part [] = 48 ∷ 48 ∷ 48 ∷ 48 ∷ 48 ∷ 48 ∷ []
clock_part (token ∷ tokens) = if has_digits 6 token then token else 48 ∷ 48 ∷ 48 ∷ 48 ∷ 48 ∷ 48 ∷ []

-- The loop over the tokens; `none` falls back to the time of the last change.
abbrev pub first_date : List (List ℕ) → Option Moment
first_date [] = none
first_date (token ∷ tokens) =
    let rest = first_date tokens in
    if has_digits 8 token then accepted (fields (token ++ clock_part tokens)) else rest

abbrev pub or_changed : Moment → Option Moment → Moment
or_changed changed none = changed
or_changed changed (some t) = t

-- `_observation_time` of a file with that stem.
unfoldable pub observation_time : List ℕ → Moment → Moment
observation_time stem changed = or_changed changed (first_date (split 95 stem))

-- `archive_file`: year, month and day of the directory.
unfoldable pub archive_path : Moment → List (List ℕ)
archive_path when = padded 4 when.year ∷ padded 2 when.month ∷ padded 2 when.day ∷ []

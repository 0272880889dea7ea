-- ===== src/Services/Windows/Fixed.antt =====
-- The window between two times of the day.
use e_callisto_ng.Prelude.Decimal.{IsDigit, value_on}
use e_callisto_ng.Prelude.{
  ℕ, ◌+◌, ◌*◌, ◌/◌, ◌%◌, ◌<◌, ◌≡◌, refl, ap, ap₂, ◌∙◌, Bool, true, ◌&&◌, Option, none, some, List,
  [], ◌∷◌, ◌++◌, All, all, leb, ltb, arith,
}
use e_callisto_ng.Services.Windows.{
  Window, at_time, both, day_ms, fixed_window, is_recording_desired, onto, read_hhmm, read_number,
  span_of, split_colon, two_numbers,
}

split_colon_last : (xs : List ℕ) → All IsDigit xs → split_colon xs ≡ xs ∷ []
unfolding split_colon
split_colon_last [] d = refl
split_colon_last (x ∷ xs) d = let rest = split_colon_last xs d.1 in ground (arith, ap (onto x) rest)

split_colon_first :
    (xs ys : List ℕ) → All IsDigit xs → split_colon (xs ++ 58 ∷ ys) ≡ xs ∷ split_colon ys
unfolding split_colon
split_colon_first [] ys d = refl
split_colon_first (x ∷ xs) ys d =
    let rest = split_colon_first xs ys d.1 in ground (arith, ap (onto x) rest)

all_digits : (xs : List ℕ) → All IsDigit xs → all (λ d. leb 48 d && leb d 57) xs ≡ true
all_digits [] d = refl
all_digits (x ∷ xs) d = let rest = all_digits xs d.1 in ground arith

read_number_lem :
    (x : ℕ) (xs : List ℕ) → All IsDigit (x ∷ xs) → read_number (x ∷ xs) ≡ some (value_on 0 (x ∷ xs))
unfolding read_number
read_number_lem x xs d = rw (all_digits (x ∷ xs) d) refl

-- A time of the day as text: the digits of its hour and of its minute, each in range.
pub record ClockTime (text : List ℕ) (h m : ℕ) : Type 0 where
  pub hour_digit : ℕ
  pub hour_digits : List ℕ
  pub minute_digit : ℕ
  pub minute_digits : List ℕ
  pub spelled : text ≡ (hour_digit ∷ hour_digits) ++ 58 ∷ minute_digit ∷ minute_digits
  pub hour_read : All IsDigit (hour_digit ∷ hour_digits)
  pub minute_read : All IsDigit (minute_digit ∷ minute_digits)
  pub hour : value_on 0 (hour_digit ∷ hour_digits) ≡ h
  pub minute : value_on 0 (minute_digit ∷ minute_digits) ≡ m
  pub hour_bound : h < 24
  pub minute_bound : m < 60

read_hhmm_lem : (text : List ℕ) (h m : ℕ) → ClockTime text h m → read_hhmm text ≡ some (h, m)
unfolding read_hhmm
read_hhmm_lem text h m t =
    ap (λ s. two_numbers (split_colon s)) t.spelled
    ∙ ap two_numbers (
        split_colon_first (t.hour_digit ∷ t.hour_digits) (t.minute_digit ∷ t.minute_digits)
          t.hour_read
        ∙ ap (λ ps. (t.hour_digit ∷ t.hour_digits) ∷ ps)
            (split_colon_last (t.minute_digit ∷ t.minute_digits) t.minute_read))
    ∙ ap₂ both (read_number_lem t.hour_digit t.hour_digits t.hour_read ∙ ap some t.hour)
        (read_number_lem t.minute_digit t.minute_digits t.minute_read ∙ ap some t.minute)

abbrev pub is_open : Option Window → ℕ → Option Bool
is_open none now = none
is_open (some w) now = some (is_recording_desired w now)

spans_open :
    (h m k n now : ℕ)
    → h < 24
    → m < 60
    → k < 24
    → n < 60
    → is_open (span_of (at_time (now / day_ms) (h, m)) (at_time (now / day_ms) (k, n))) now
      ≡ some (leb (h * 60 + m) (now % day_ms / 60000) && ltb (now % day_ms / 60000) (k * 60 + n))
unfolding at_time is_recording_desired
spans_open h m k n now a b c d = ground arith

-- For two times spelled as digits, a colon and digits, a fixed window is open exactly from the
-- minute of the day that the first names up to, and without, the minute that the second names.
pub fixed_window_open :
    (start_utc stop_utc : List ℕ) (h m k n now : ℕ)
    → ClockTime start_utc h m
    → ClockTime stop_utc k n
    → is_open (fixed_window (now / day_ms) start_utc stop_utc) now
      ≡ some (leb (h * 60 + m) (now % day_ms / 60000) && ltb (now % day_ms / 60000) (k * 60 + n))
unfolding fixed_window at_time is_recording_desired
fixed_window_open a b h m k n now s t = rw (read_hhmm_lem a h m s) (
    rw (read_hhmm_lem b k n t)
      (spans_open h m k n now s.hour_bound s.minute_bound t.hour_bound t.minute_bound))

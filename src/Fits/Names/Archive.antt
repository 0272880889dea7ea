-- ===== src/Fits/Names/Archive.antt =====
-- A file's name says under which day it is archived.
use e_callisto_ng.Prelude.Decimal.{
  IsDigit, length-padded, padded, padded-IsDigit, padded-value, ten_to,
}
use e_callisto_ng.Prelude.Split.{cut, cut-append, lacks, split, split-append, split_first}
use e_callisto_ng.Prelude.{
  ℕ, suc, ◌≤◌, ◌<◌, ◌≡◌, refl, sym, ap, ◌∙◌, true, not, List, [], ◌∷◌, ◌++◌, append_assoc, all, All,
  All-append, length, length-append, arith,
}
use e_callisto_ng.Fits.{Moment, date_text, stem_of, time_text}
use e_callisto_ng.Fits.Names.{
  days_in_month, fields, first_date, has_digits, is_digit, is_valid, observation_time, or_changed,
}

lacks_digits : (xs : List ℕ) → All IsDigit xs → lacks 95 xs ≡ true
lacks_digits [] d = refl
lacks_digits (x ∷ xs) d = let rest = lacks_digits xs d.1 in ground arith

all_digits : (xs : List ℕ) → All IsDigit xs → all is_digit xs ≡ true
all_digits [] d = refl
all_digits (x ∷ xs) d = let rest = all_digits xs d.1 in ground arith

has_digits_lem : (n : ℕ) (xs : List ℕ) → All IsDigit xs → length xs ≡ n → has_digits n xs ≡ true
has_digits_lem n xs d e = let digits = all_digits xs d in ground arith

cut-padded :
    (w n : ℕ) (rest : List ℕ)
    → n < ten_to (suc w)
    → cut (suc w) (padded (suc w) n ++ rest) ≡ (padded (suc w) n, rest)
cut-padded w n rest h =
    ap (λ k. cut k (padded (suc w) n ++ rest)) (sym (length-padded w n h))
    ∙ cut-append (padded (suc w) n) rest

-- A valid time whose year has four digits.
pub record IsDated (t : Moment) : Type 0 where
  pub valid : is_valid t ≡ true
  pub years : t.year < 10_000
  pub four_digits : 1_000 ≤ t.year

date_text-IsDigit : (t : Moment) → All IsDigit (date_text t)
unfolding date_text
date_text-IsDigit t =
    All-append IsDigit (padded 4 t.year) _ (padded-IsDigit 4 t.year)
      (All-append IsDigit (padded 2 t.month) _ (padded-IsDigit 2 t.month) (padded-IsDigit 2 t.day))

time_text-IsDigit : (t : Moment) → All IsDigit (time_text t)
unfolding time_text
time_text-IsDigit t = All-append IsDigit (padded 2 t.hour) _ (padded-IsDigit 2 t.hour) (
    All-append IsDigit (padded 2 t.minute) _ (padded-IsDigit 2 t.minute)
      (padded-IsDigit 2 t.second))

module _ (t : Moment) (h : IsDated t) where
  month_bound : t.month < 100
  unfolding is_valid
  month_bound = ground (arith, h.valid)

  day_bound : t.day < 100
  unfolding is_valid days_in_month
  day_bound = ground (arith, h.valid)

  hour_bound : t.hour < 100
  unfolding is_valid
  hour_bound = ground (arith, h.valid)

  minute_bound : t.minute < 100
  unfolding is_valid
  minute_bound = ground (arith, h.valid)

  second_bound : t.second < 100
  unfolding is_valid
  second_bound = ground (arith, h.valid)

  length-date_text : length (date_text t) ≡ 8
  unfolding date_text
  length-date_text = omega (
    arith,
    length-append (padded 4 t.year) (padded 2 t.month ++ padded 2 t.day),
    length-append (padded 2 t.month) (padded 2 t.day),
    length-padded 3 t.year h.years,
    length-padded 1 t.month month_bound,
    length-padded 1 t.day day_bound,
  )

  length-time_text : length (time_text t) ≡ 6
  unfolding time_text
  length-time_text = omega (
    arith,
    length-append (padded 2 t.hour) (padded 2 t.minute ++ padded 2 t.second),
    length-append (padded 2 t.minute) (padded 2 t.second),
    length-padded 1 t.hour hour_bound,
    length-padded 1 t.minute minute_bound,
    length-padded 1 t.second second_bound,
  )

  fields-date_text : fields (date_text t ++ time_text t) ≡ t
  unfolding fields date_text time_text
  fields-date_text = rw (append_assoc (padded 4 t.year) (padded 2 t.month ++ padded 2 t.day) _) (
      rw (append_assoc (padded 2 t.month) (padded 2 t.day) _) (
        rw (cut-padded 3 t.year _ h.years) (
          rw (cut-padded 1 t.month _ month_bound) (
            rw (cut-padded 1 t.day _ day_bound) (
              rw (cut-padded 1 t.hour _ hour_bound)
                (rw (cut-padded 1 t.minute _ minute_bound) (simp padded-value refl)))))))

first_date-append :
    (xs ys : List (List ℕ))
    → all (λ token. not (has_digits 8 token)) xs ≡ true
    → first_date (xs ++ ys) ≡ first_date ys
first_date-append [] ys h = refl
first_date-append (x ∷ xs) ys h = ground (arith, first_date-append xs ys (ground arith))

split-stem_of :
    (instrument : List ℕ) (t : Moment) (focus_code : ℕ) (suffix : List ℕ)
    → split 95 (stem_of instrument t focus_code ++ suffix)
      ≡ split 95 instrument ++ date_text t ∷ time_text t ∷ split 95 (padded 2 focus_code ++ suffix)
unfolding stem_of
split-stem_of instrument t focus_code suffix =
    ap (split 95) (
      append_assoc instrument (95 ∷ (date_text t ++ 95 ∷ (time_text t ++ 95 ∷ padded 2 focus_code)))
        suffix
      ∙ ap (λ x. instrument ++ 95 ∷ x)
          (append_assoc (date_text t) (95 ∷ (time_text t ++ 95 ∷ padded 2 focus_code)) suffix
            ∙ ap (λ x. date_text t ++ 95 ∷ x)
                (append_assoc (time_text t) (95 ∷ padded 2 focus_code) suffix)))
    ∙ split-append 95 instrument
        (date_text t ++ 95 ∷ (time_text t ++ 95 ∷ (padded 2 focus_code ++ suffix)))
    ∙ ap (λ x. split 95 instrument ++ x)
        (split_first 95 (date_text t) (time_text t ++ 95 ∷ (padded 2 focus_code ++ suffix))
            (lacks_digits (date_text t) (date_text-IsDigit t))
          ∙ ap (λ x. date_text t ∷ x)
              (split_first 95 (time_text t) (padded 2 focus_code ++ suffix)
                (lacks_digits (time_text t) (time_text-IsDigit t))))

-- A file that the writer names for a valid time, with any suffix that its name may have got, is
-- archived under just that time, unless a part of the instrument's name between underscores is
-- eight digits itself.
pub observation_time-stem_of :
    (instrument : List ℕ) (t : Moment) (focus_code : ℕ) (suffix : List ℕ) (changed : Moment)
    → all (λ token. not (has_digits 8 token)) (split 95 instrument) ≡ true
    → IsDated t
    → observation_time (stem_of instrument t focus_code ++ suffix) changed ≡ t
unfolding observation_time
observation_time-stem_of instrument t focus_code suffix changed plain h =
    let is_date = has_digits_lem 8 (date_text t) (date_text-IsDigit t) (length-date_text t h) in
    let is_time = has_digits_lem 6 (time_text t) (time_text-IsDigit t) (length-time_text t h) in
    ap (λ x. or_changed changed (first_date x)) (split-stem_of instrument t focus_code suffix)
    ∙ ap (or_changed changed) (first_date-append (split 95 instrument) _ plain)
    ∙ simp (is_date, is_time, fields-date_text t h, h.valid) refl

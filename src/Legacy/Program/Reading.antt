-- ===== src/Legacy/Program/Reading.antt =====
-- The lines of src/ecallisto_ng/services/legacy_export.py for the channels, and how
-- src/ecallisto_ng/services/legacy_import.py reads them.
use e_callisto_ng.Prelude.Text.{codes}
use e_callisto_ng.Prelude.Decimal.{
  IsDigit, decimal, length-decimal_positive, decimal-IsDigit, decimal-value, length-padded,
  length-padded_at_least, padded, padded-IsDigit, padded-value, ten_to, value_on, value_on-append,
}
use e_callisto_ng.Prelude.Split.{lacks, split, split_first, split_lacking}
use e_callisto_ng.Prelude.Lines.{lines_after}
use e_callisto_ng.Prelude.Int.{pos}
use e_callisto_ng.Prelude.{
  ℕ, ◌+◌, ◌-◌, ◌*◌, ◌/◌, ◌%◌, ◌<◌, ◌≤◌, ◌≡◌, refl, sym, ap, ◌∙◌, Bool, true, false, not, none, some,
  List, [], ◌∷◌, ◌++◌, append-nil, append_assoc, map, all, all-append, All, All-append, length,
  length-append, ltb, ◌==◌, arith,
}
use e_callisto_ng.Legacy.{is_digit, joined_lines, read_int}
use e_callisto_ng.Legacy.Program.{
  Float, ProgramConfig, apply_lines, apply_setting, by_index, channel_lines, first_part, flag,
  without_zeros, float_of, insert_channel, is_in, mhz, or_text, read_float, setting, values,
  with_channel,
}
use e_callisto_ng.Legacy.Schedule.{read_int_digits}
use e_callisto_ng.Legacy.Program.Keys.{
  apply_lines-setting, read_int_point, without_zeros_solid, digits_solid, is_solid,
  key_value_digits, solid-append, strip_solid,
}

-- A frequency in kilohertz, as a number with three places.
abbrev pub float : ℕ → Float
float f = record { digits = f; places = 3 }

value_on_shift :
    (acc : ℕ) (xs : List ℕ) → value_on acc xs ≡ acc * ten_to (length xs) + value_on 0 xs
value_on_shift acc [] = omega arith
value_on_shift acc (x ∷ xs) =
    value_on_shift (acc * 10 + (x - 48)) xs ∙ grind (arith, value_on_shift (x - 48) xs)

all_digit : (xs : List ℕ) → All IsDigit xs → all is_digit xs ≡ true
all_digit [] h = refl
all_digit (x ∷ xs) h = let rest = all_digit xs h.1 in ground arith

digits_lack : (sep : ℕ) (xs : List ℕ) → sep < 48 → All IsDigit xs → lacks sep xs ≡ true
digits_lack sep [] lt h = refl
digits_lack sep (x ∷ xs) lt h = let rest = digits_lack sep xs lt h.1 in ground arith

module _ (w f : ℕ) where
  pub mhz_solid : is_solid (mhz w f) ≡ true
  mhz_solid =
      solid-append (padded w (f / 1000)) (46 ∷ padded 3 (f % 1000))
        (digits_solid (padded w (f / 1000)) (padded-IsDigit w (f / 1000)))
        (digits_solid (padded 3 (f % 1000)) (padded-IsDigit 3 (f % 1000)))

  mhz_value : value_on 0 (padded w (f / 1000) ++ padded 3 (f % 1000)) ≡ f
  mhz_value =
      value_on-append 0 (padded w (f / 1000)) (padded 3 (f % 1000))
      ∙ ap (λ acc. value_on acc (padded 3 (f % 1000))) (padded-value w (f / 1000))
      ∙ value_on_shift (f / 1000) (padded 3 (f % 1000))
      ∙ rw (length-padded 2 (f % 1000) (omega arith)) (rw (padded-value 3 (f % 1000)) (omega arith))

  pub read_float-mhz : read_float (mhz w f) ≡ some (float f)
  unfolding read_float
  read_float-mhz =
      ap (λ t. float_of (split 46 t)) (strip_solid (mhz w f) mhz_solid)
      ∙ ap float_of (
          split_first 46 (padded w (f / 1000)) (padded 3 (f % 1000))
            (digits_lack 46 (padded w (f / 1000)) (omega arith) (padded-IsDigit w (f / 1000)))
          ∙ ap (padded w (f / 1000) ∷◌) (
              split_lacking 46 (padded 3 (f % 1000))
                (digits_lack 46 (padded 3 (f % 1000)) (omega arith) (padded-IsDigit 3 (f % 1000)))))
      ∙ simp (digits, shown, mhz_value, length-padded 2 (f % 1000) (omega arith)) refl
    where
      digits : all is_digit (padded w (f / 1000) ++ padded 3 (f % 1000)) ≡ true
      digits = all_digit (padded w (f / 1000) ++ padded 3 (f % 1000)) (
          All-append IsDigit (padded w (f / 1000)) (padded 3 (f % 1000))
            (padded-IsDigit w (f / 1000)) (padded-IsDigit 3 (f % 1000)))

      shown : ltb 0 (length (padded w (f / 1000) ++ padded 3 (f % 1000))) ≡ true
      shown = ground (
        arith,
        length-append (padded w (f / 1000)) (padded 3 (f % 1000)),
        length-padded_at_least 3 (f % 1000),
      )

mhz-lacks : (w f : ℕ) → lacks 44 (mhz w f) ≡ true
mhz-lacks w f =
    all-append (λ c. not (c == 44)) (padded w (f / 1000)) (46 ∷ padded 3 (f % 1000))
      (digits_lack 44 (padded w (f / 1000)) (omega arith) (padded-IsDigit w (f / 1000)))
      (digits_lack 44 (padded 3 (f % 1000)) (omega arith) (padded-IsDigit 3 (f % 1000)))

cons_of_digits :
    (xs : List ℕ)
    → 1 ≤ length xs
    → All IsDigit xs
    → (y : ℕ) × (ys : List ℕ) × (xs ≡ y ∷ ys) × All IsDigit (y ∷ ys)
cons_of_digits [] le h = absurd (omega arith)
cons_of_digits (x ∷ xs) le h = (x, xs, refl, h)

apply_setting_digits :
    (x : ℕ) (xs value : List ℕ) (p : ProgramConfig)
    → All IsDigit (x ∷ xs)
    → apply_setting (x ∷ xs) value p
      ≡ with_channel p (value_on 0 (x ∷ xs)) (read_float (first_part (split 44 value)))
unfolding apply_setting
apply_setting_digits x xs value p h =
    let sweeps : (x == 110) ≡ false = ground (arith, h.0) in
    let oscillator : (x == 101) ≡ false = ground (arith, h.0) in
    let shown : ltb 0 (length (x ∷ xs)) ≡ true = ground arith in
    simp (sweeps, oscillator, all_digit (x ∷ xs) h, shown) refl

abbrev pub indexed_from : ℕ → List ℕ → List (ℕ × Float)
indexed_from i [] = []
indexed_from i (f ∷ fs) = (i + 1, float f) ∷ indexed_from (i + 1) fs

flag_solid : (b : Bool) → is_solid (flag b) ≡ true
flag_solid true = refl
flag_solid false = refl

read-channel :
    (lc : List ℕ) (i f : ℕ) (ls : List (List ℕ)) (p : ProgramConfig)
    → apply_lines
        (lines_after false
          (joined_lines (setting (padded 4 (i + 1)) (mhz 4 f ++ 44 ∷ flag (is_in i lc)) ∷ ls)))
        (some p)
      ≡ apply_lines
          (lines_after false (joined_lines ls))
          (some (record p { indexed = p.indexed ++ (i + 1, float f) ∷ [] }))
read-channel lc i f ls p =
    let key = padded 4 (i + 1) in
    let value = mhz 4 f ++ 44 ∷ flag (is_in i lc) in
    let (y, ys, e, digits) =
      cons_of_digits key (omega (arith, length-padded_at_least 4 (i + 1)))
        (padded-IsDigit 4 (i + 1)) in
    let solid : is_solid value ≡ true =
      solid-append (mhz 4 f) (44 ∷ flag (is_in i lc)) (mhz_solid 4 f) (flag_solid (is_in i lc)) in
    let number : value_on 0 (y ∷ ys) ≡ i + 1 = ap (value_on 0) (sym e) ∙ padded-value 4 (i + 1) in
    ap (λ k. apply_lines (lines_after false (joined_lines (setting k value ∷ ls))) (some p)) e
    ∙ apply_lines-setting (y ∷ ys) value ls p (digits_solid (y ∷ ys) digits) solid
        (key_value_digits y ys value digits solid)
    ∙ ap (apply_lines (lines_after false (joined_lines ls))) (
        apply_setting_digits y ys value p digits
        ∙ ap (λ v. with_channel p (value_on 0 (y ∷ ys)) (read_float (first_part v)))
            (split_first 44 (mhz 4 f) (flag (is_in i lc)) (mhz-lacks 4 f))
        ∙ ap (with_channel p (value_on 0 (y ∷ ys))) (read_float-mhz 4 f)
        ∙ ap (λ n. some (record p { indexed = p.indexed ++ (n, float f) ∷ [] })) number)

pub read-channel_lines :
    (lc : List ℕ) (i : ℕ) (fs : List ℕ) (p : ProgramConfig)
    → apply_lines (lines_after false (joined_lines (channel_lines lc i fs))) (some p)
      ≡ some (record p { indexed = p.indexed ++ indexed_from i fs })
read-channel_lines lc i [] p =
    ap (λ ps. some (record p { indexed = ps })) (sym (append-nil p.indexed))
read-channel_lines lc i (f ∷ fs) p =
    read-channel lc i f (channel_lines lc (i + 1) fs) p
    ∙ read-channel_lines lc (i + 1) fs (record p { indexed = p.indexed ++ (i + 1, float f) ∷ [] })
    ∙ ap (λ ps. some (record p { indexed = ps }))
        (append_assoc p.indexed ((i + 1, float f) ∷ []) (indexed_from (i + 1) fs))

pub by_index-indexed_from : (i : ℕ) (fs : List ℕ) → by_index (indexed_from i fs) ≡ indexed_from i fs
by_index-indexed_from i [] = refl
by_index-indexed_from i (f ∷ fs) =
    ap (insert_channel (i + 1, float f)) (by_index-indexed_from (i + 1) fs) ∙ at_front fs
  where
    at_front :
        (gs : List ℕ)
        → insert_channel (i + 1, float f) (indexed_from (i + 1) gs)
          ≡ (i + 1, float f) ∷ indexed_from (i + 1) gs
    at_front [] = refl
    at_front (g ∷ gs) =
        let before : ltb (i + 1) (i + 1 + 1) ≡ true = ground arith in simp before refl

pub values-indexed_from : (i : ℕ) (fs : List ℕ) → values (indexed_from i fs) ≡ map float fs
values-indexed_from i [] = refl
values-indexed_from i (f ∷ fs) = ap (float f ∷◌) (values-indexed_from (i + 1) fs)

digits_cons : (n : ℕ) → (y : ℕ) × (ys : List ℕ) × (decimal n ≡ y ∷ ys) × All IsDigit (y ∷ ys)
digits_cons n = cons_of_digits (decimal n) (length-decimal_positive n) (decimal-IsDigit n)

pub read_int-decimal : (n : ℕ) → read_int (or_text (decimal n) (codes "4")) ≡ some (pos n)
read_int-decimal n =
    let (y, ys, e, h) = digits_cons n in
    ap (λ t. read_int (or_text t (codes "4"))) e
    ∙ read_int_digits y ys h
    ∙ ap (λ m. some (pos m)) (ap (value_on 0) (sym e) ∙ decimal-value n)

-- A text with a point after its first digits.
pub read_int_pointed :
    (n : ℕ) (rest : List ℕ)
    → is_solid rest ≡ true
    → read_int (or_text (decimal n ++ 46 ∷ rest) (codes "4")) ≡ none
read_int_pointed n rest h =
    let (y, ys, e, digits) = digits_cons n in
    ap (λ t. read_int (or_text (t ++ 46 ∷ rest) (codes "4"))) e ∙ read_int_point y ys rest digits h

pub decimal_solid : (n : ℕ) → is_solid (decimal n) ≡ true
decimal_solid n = digits_solid (decimal n) (decimal-IsDigit n)

pub fraction_solid : (w n : ℕ) → is_solid (without_zeros (padded w n)) ≡ true
fraction_solid w n =
    without_zeros_solid (padded w n) (digits_solid (padded w n) (padded-IsDigit w n))

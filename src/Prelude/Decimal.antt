-- ===== src/Prelude/Decimal.antt =====
-- Decimal text, as Python's format() prints a natural number, zero-padded to a width.
use Prim.Native.Nat.{ℕ, zero, suc, ◌+◌, ◌-◌, ◌*◌, ◌/◌, ◌%◌, ◌≤◌, ◌<◌}
use mathlib.Core.Path.{◌≡◌, refl, ap, ◌∙◌}
use mathlib.Core.List.{List, [], ◌∷◌, ◌++◌}
use native.Mathlib.Omega.{arith}
use e_callisto_ng.Prelude.Tests.{ltb, if◌then◌else◌}
use e_callisto_ng.Prelude.Lists.{length, length-append, replicate, All, All-append}

-- The digits of a number, most significant first, at least one. The fuel is the number itself,
-- which is at least the number of further digits.
unfoldable pub digits_on : ℕ → ℕ → List ℕ
digits_on zero n = (48 + n % 10) ∷ []
digits_on (suc fuel) n =
    let more = digits_on fuel (n / 10) ++ (48 + n % 10) ∷ [] in
    if ltb n 10 then (48 + n) ∷ [] else more

unfoldable pub decimal : ℕ → List ℕ
unfolding digits_on
decimal n = digits_on n n

-- `{n:0<width>d}`
unfoldable pub padded : ℕ → ℕ → List ℕ
unfolding decimal
padded width n = let text = decimal n in replicate (width - length text) 48 ++ text

-- The number that decimal digits stand for.
abbrev pub value_on : ℕ → List ℕ → ℕ
value_on acc [] = acc
value_on acc (c ∷ cs) = value_on (acc * 10 + (c - 48)) cs

abbrev pub IsDigit : ℕ → Type 0
IsDigit c = (48 ≤ c) × (c ≤ 57)

pub value_on-append :
    (acc : ℕ) (xs ys : List ℕ) → value_on acc (xs ++ ys) ≡ value_on (value_on acc xs) ys
value_on-append acc [] ys = refl
value_on-append acc (x ∷ xs) ys = value_on-append (acc * 10 + (x - 48)) xs ys

digits_on-value : (fuel n : ℕ) → n ≤ fuel → value_on 0 (digits_on fuel n) ≡ n
unfolding digits_on
digits_on-value zero n h = omega arith
digits_on-value (suc fuel) n h = ground (
  arith,
  value_on-append 0 (digits_on fuel (n / 10)) ((48 + n % 10) ∷ []),
  digits_on-value fuel (n / 10),
)

digits_on-IsDigit : (fuel n : ℕ) → All IsDigit (digits_on fuel n)
unfolding digits_on
digits_on-IsDigit zero n = omega arith
digits_on-IsDigit (suc fuel) n = ground (
  arith,
  All-append IsDigit (digits_on fuel (n / 10)) ((48 + n % 10) ∷ [])
      (digits_on-IsDigit fuel (n / 10)),
)

zeros-value : (k : ℕ) → value_on 0 (replicate k 48) ≡ 0
zeros-value zero = refl
zeros-value (suc k) = zeros-value k

zeros-IsDigit : (k : ℕ) → All IsDigit (replicate k 48)
zeros-IsDigit zero = tt
zeros-IsDigit (suc k) = (omega arith, zeros-IsDigit k)

-- Printed numbers read back, with or without padding, and consist of digits.
pub decimal-value : (n : ℕ) → value_on 0 (decimal n) ≡ n
unfolding decimal
decimal-value n = digits_on-value n n (omega arith)

pub decimal-IsDigit : (n : ℕ) → All IsDigit (decimal n)
unfolding decimal
decimal-IsDigit n = digits_on-IsDigit n n

pub padded-value : (w n : ℕ) → value_on 0 (padded w n) ≡ n
unfolding padded
padded-value w n =
    value_on-append 0 (replicate (w - length (decimal n)) 48) (decimal n)
    ∙ ap (λ acc. value_on acc (decimal n)) (zeros-value (w - length (decimal n)))
    ∙ decimal-value n

pub padded-IsDigit : (w n : ℕ) → All IsDigit (padded w n)
unfolding padded
padded-IsDigit w n =
    All-append IsDigit (replicate (w - length (decimal n)) 48) (decimal n)
      (zeros-IsDigit (w - length (decimal n))) (decimal-IsDigit n)

abbrev pub ten_to : ℕ → ℕ
ten_to zero = 1
ten_to (suc k) = 10 * ten_to k

length-digits_on : (fuel n k : ℕ) → n < ten_to (suc k) → length (digits_on fuel n) ≤ suc k
unfolding digits_on
length-digits_on zero n k h = omega arith
length-digits_on (suc fuel) n zero h = ground arith
length-digits_on (suc fuel) n (suc k) h = ground (
  arith,
  length-append (digits_on fuel (n / 10)) ((48 + n % 10) ∷ []),
  length-digits_on fuel (n / 10) k (omega arith),
)

length-zeros : (k : ℕ) → length {A = ℕ} (replicate k 48) ≡ k
length-zeros zero = refl
length-zeros (suc k) = ap suc (length-zeros k)

-- A number that fits is printed in exactly the width.
pub length-padded : (w n : ℕ) → n < ten_to (suc w) → length (padded (suc w) n) ≡ suc w
unfolding padded decimal
length-padded w n h = omega (
  arith,
  length-append (replicate (suc w - length (decimal n)) 48) (decimal n),
  length-zeros (suc w - length (decimal n)),
  length-digits_on n n w h,
)

pub length-padded_at_least : (w n : ℕ) → w ≤ length (padded w n)
unfolding padded
length-padded_at_least w n = omega (
  arith,
  length-append (replicate (w - length (decimal n)) 48) (decimal n),
  length-zeros (w - length (decimal n)),
)

digits_on_shown : (fuel n : ℕ) → 1 ≤ length (digits_on fuel n)
unfolding digits_on
digits_on_shown zero n = omega arith
digits_on_shown (suc fuel) n =
    ground (arith, length-append (digits_on fuel (n / 10)) ((48 + n % 10) ∷ []))

pub length-decimal_positive : (n : ℕ) → 1 ≤ length (decimal n)
unfolding decimal
length-decimal_positive n = digits_on_shown n n

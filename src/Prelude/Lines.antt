-- ===== src/Prelude/Lines.antt =====
-- Lines of a text, and white space at its ends, as Python has them.
use Prim.Native.Nat.{ℕ}
use mathlib.Core.Path.{◌≡◌, refl, ap, ◌∙◌}
use mathlib.Core.Bool.{Bool, true, false, not, ◌&&◌, ◌||◌}
use mathlib.Core.List.{List, [], ◌∷◌, ◌++◌}
use native.Mathlib.Omega.{arith}
use e_callisto_ng.Prelude.Tests.{◌==◌, leb, if◌then◌else◌}
use e_callisto_ng.Prelude.Lists.{all}
use e_callisto_ng.Prelude.Split.{onto}

-- The characters at which `str.splitlines` ends a line.
abbrev pub is_break : ℕ → Bool
is_break c = (leb 10 c && leb c 13) || (leb 28 c && leb c 30) || c == 133 || c == 8232 || c == 8233

-- `str.isspace`
abbrev pub is_space : ℕ → Bool
is_space c =
    (leb 9 c && leb c 13)
    || (leb 28 c && leb c 32)
    || c == 133
    || c == 160
    || c == 5760
    || (leb 8192 c && leb c 8202)
    || c == 8232
    || c == 8233
    || c == 8239
    || c == 8287
    || c == 12288

-- `splitlines`; the flag says that the last character was a carriage return, which a line feed
-- belongs to.
abbrev pub lines_after : Bool → List ℕ → List (List ℕ)
lines_after cr [] = []
lines_after cr (c ∷ cs) =
    let rest = lines_after (c == 13) cs in
    if cr && c == 10 then rest else if is_break c then [] ∷ rest else onto c rest

abbrev pub lstrip : List ℕ → List ℕ
lstrip [] = []
lstrip (c ∷ cs) = let rest = lstrip cs in if is_space c then rest else c ∷ cs

abbrev pub keep_unless_blank : ℕ → List ℕ → List ℕ
keep_unless_blank c [] = if is_space c then [] else c ∷ []
keep_unless_blank c (d ∷ ds) = c ∷ d ∷ ds

abbrev pub rstrip : List ℕ → List ℕ
rstrip [] = []
rstrip (c ∷ cs) = keep_unless_blank c (rstrip cs)

abbrev pub strip : List ℕ → List ℕ
strip text = rstrip (lstrip text)

-- No line ends in it.
abbrev pub is_one_line : List ℕ → Bool
is_one_line text = all (λ c. not (is_break c)) text

not_feed : (c : ℕ) → is_break c ≡ false → (c == 10) ≡ false
not_feed c h = ground arith

not_return : (c : ℕ) → is_break c ≡ false → (c == 13) ≡ false
not_return c h = ground arith

first_stays : (c : ℕ) (cs : List ℕ) → is_one_line (c ∷ cs) ≡ true → is_break c ≡ false
first_stays c cs h = ground arith

ordinary :
    (cr : Bool) (c : ℕ) (cs : List ℕ)
    → is_break c ≡ false
    → lines_after cr (c ∷ cs) ≡ onto c (lines_after false cs)
ordinary true c cs h = simp (not_feed c h, not_return c h, h) refl
ordinary false c cs h = simp (not_return c h, h) refl

pub lines_after_line :
    (cr : Bool) (c : ℕ) (cs ys : List ℕ)
    → is_one_line (c ∷ cs) ≡ true
    → lines_after cr ((c ∷ cs) ++ 13 ∷ 10 ∷ ys) ≡ (c ∷ cs) ∷ lines_after false ys
lines_after_line cr c [] ys h = ordinary cr c (13 ∷ 10 ∷ ys) (first_stays c [] h)
lines_after_line cr c (d ∷ ds) ys h =
    ordinary cr c ((d ∷ ds) ++ 13 ∷ 10 ∷ ys) (first_stays c (d ∷ ds) h)
    ∙ ap (onto c) (lines_after_line false d ds ys (rest_stays c (d ∷ ds) h))
  where
    rest_stays : (c : ℕ) (cs : List ℕ) → is_one_line (c ∷ cs) ≡ true → is_one_line cs ≡ true
    rest_stays c cs h = ground arith

pub rstrip-append :
    (xs : List ℕ) (y : ℕ) (ys : List ℕ)
    → rstrip (y ∷ ys) ≡ y ∷ ys
    → rstrip (xs ++ y ∷ ys) ≡ xs ++ y ∷ ys
rstrip-append [] y ys h = h
rstrip-append (x ∷ []) y ys h = ap (keep_unless_blank x) h
rstrip-append (x ∷ z ∷ zs) y ys h = ap (keep_unless_blank x) (rstrip-append (z ∷ zs) y ys h)

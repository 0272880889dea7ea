-- ===== src/Prelude/Text.antt =====
-- Text as a list of code points: literals, and the search for one text in another.
use Prim.Native.Nat.{ℕ}
use Prim.Native.Char.{code}
use Prim.Native.String.{String}
use mathlib.Core.Path.{◌≡◌, refl}
use mathlib.Core.Bool.{Bool, true, false, ◌&&◌, ◌||◌}
use mathlib.Core.List.{List, [], ◌∷◌, ◌++◌}
use native.Mathlib.Omega.{arith}
use e_callisto_ng.Prelude.Tests.{◌==◌}

abbrev pub codes : String → List ℕ
codes String.[] = []
codes (String.◌∷◌ c s) = code c ∷ codes s

abbrev pub begins_with : List ℕ → List ℕ → Bool
begins_with [] text = true
begins_with (c ∷ cs) [] = false
begins_with (c ∷ cs) (d ∷ ds) = c == d && begins_with cs ds

-- `needle in text`
abbrev pub occurs : List ℕ → List ℕ → Bool
occurs needle [] = begins_with needle []
occurs needle (c ∷ text) = begins_with needle (c ∷ text) || occurs needle text

-- `==` of two texts
abbrev pub same_text : List ℕ → List ℕ → Bool
same_text [] [] = true
same_text [] (d ∷ ds) = false
same_text (c ∷ cs) [] = false
same_text (c ∷ cs) (d ∷ ds) = c == d && same_text cs ds

pub same_text_refl : (cs : List ℕ) → same_text cs cs ≡ true
same_text_refl [] = refl
same_text_refl (c ∷ cs) = let rest = same_text_refl cs in ground arith

pub same_text-eq : (cs ds : List ℕ) → same_text cs ds ≡ true → cs ≡ ds
same_text-eq [] [] h = refl
same_text-eq [] (d ∷ ds) h = cc
same_text-eq (c ∷ cs) [] h = cc
same_text-eq (c ∷ cs) (d ∷ ds) h = cc (same_text-eq cs ds (ground arith), head c d (ground arith))
  where
    head : (c d : ℕ) → (c == d) ≡ true → c ≡ d
    head c d e = ground arith

-- A text is not the same as a longer one.
pub same_text_longer : (cs : List ℕ) (d : ℕ) (ds : List ℕ) → same_text (cs ++ d ∷ ds) cs ≡ false
same_text_longer [] d ds = refl
same_text_longer (c ∷ cs) d ds = let rest = same_text_longer cs d ds in ground arith

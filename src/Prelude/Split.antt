-- ===== src/Prelude/Split.antt =====
-- Text cut at a separator and put together again.
use Prim.Native.Nat.{ℕ, zero, suc}
use mathlib.Core.Path.{◌≡◌, refl, ap, ◌∙◌}
use mathlib.Core.Bool.{Bool, true, false, not}
use mathlib.Core.List.{List, [], ◌∷◌, ◌++◌}
use native.Mathlib.Omega.{arith}
use e_callisto_ng.Prelude.Tests.{◌==◌, if◌then◌else◌}
use e_callisto_ng.Prelude.Lists.{all, length}

abbrev pub onto : ℕ → List (List ℕ) → List (List ℕ)
onto c [] = (c ∷ []) ∷ []
onto c (p ∷ ps) = (c ∷ p) ∷ ps

-- `text.split(sep)`
abbrev pub split : ℕ → List ℕ → List (List ℕ)
split sep [] = [] ∷ []
split sep (c ∷ cs) = let rest = split sep cs in if c == sep then [] ∷ rest else onto c rest

-- The separator does not occur.
abbrev pub lacks : ℕ → List ℕ → Bool
lacks sep text = all (λ c. not (c == sep)) text

split_cons : (sep : ℕ) (xs : List ℕ) → (p : List ℕ) × (ps : List (List ℕ)) × (split sep xs ≡ p ∷ ps)
split_cons sep [] = ([], [], refl)
split_cons sep (x ∷ xs) = let (p, ps, e) = split_cons sep xs in go (x == sep) p ps e
  where
    go :
        (b : Bool) (p : List ℕ) (ps : List (List ℕ))
        → split sep xs ≡ p ∷ ps
        → (q : List ℕ) × (qs : List (List ℕ)) × ((if b
              then [] ∷ split sep xs
              else onto x (split sep xs))
            ≡ q ∷ qs)
    go true p ps e = ([], split sep xs, refl)
    go false p ps e = (x ∷ p, ps, ap (onto x) e)

pub split_lacking : (sep : ℕ) (xs : List ℕ) → lacks sep xs ≡ true → split sep xs ≡ xs ∷ []
split_lacking sep [] h = refl
split_lacking sep (x ∷ xs) h = ground (arith, ap (onto x) (split_lacking sep xs (ground arith)))

-- A separator cuts a text into what its two sides are cut into.
pub split-append :
    (sep : ℕ) (xs ys : List ℕ) → split sep (xs ++ sep ∷ ys) ≡ split sep xs ++ split sep ys
split-append sep [] ys = ground arith
split-append sep (x ∷ xs) ys =
    let (p, ps, e) = split_cons sep xs in
    let rest : split sep (xs ++ sep ∷ ys) ≡ (p ∷ ps) ++ split sep ys =
      split-append sep xs ys ∙ ap (λ t. t ++ split sep ys) e in
    go (x == sep) p ps e rest
  where
    go :
        (b : Bool) (p : List ℕ) (ps : List (List ℕ))
        → split sep xs ≡ p ∷ ps
        → split sep (xs ++ sep ∷ ys) ≡ (p ∷ ps) ++ split sep ys
        → (if b then [] ∷ split sep (xs ++ sep ∷ ys) else onto x (split sep (xs ++ sep ∷ ys)))
          ≡ (if b then [] ∷ split sep xs else onto x (split sep xs)) ++ split sep ys
    go true p ps e r = rw (e, r) refl
    go false p ps e r = rw (e, r) refl

pub split_first :
    (sep : ℕ) (xs ys : List ℕ)
    → lacks sep xs ≡ true
    → split sep (xs ++ sep ∷ ys) ≡ xs ∷ split sep ys
split_first sep xs ys h =
    split-append sep xs ys ∙ ap (λ t. t ++ split sep ys) (split_lacking sep xs h)

pub lacks-append :
    (sep : ℕ) (xs ys : List ℕ)
    → lacks sep xs ≡ true
    → lacks sep ys ≡ true
    → lacks sep (xs ++ ys) ≡ true
lacks-append sep [] ys h k = k
lacks-append sep (x ∷ xs) ys h k = ground (arith, lacks-append sep xs ys (ground arith) k)

-- The first `n` characters, and the rest.
abbrev pub cut : ℕ → List ℕ → List ℕ × List ℕ
cut zero text = ([], text)
cut (suc n) [] = ([], [])
cut (suc n) (c ∷ cs) = let (front, rest) = cut n cs in (c ∷ front, rest)

pub cut-append : (xs ys : List ℕ) → cut (length xs) (xs ++ ys) ≡ (xs, ys)
cut-append [] ys = refl
cut-append (x ∷ xs) ys = ap (λ p. (x ∷ p.0, p.1)) (cut-append xs ys)

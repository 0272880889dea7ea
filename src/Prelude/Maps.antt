-- ===== src/Prelude/Maps.antt =====
-- Maps from numbers as functions, and the entry that a write changes.
use Prim.Native.Nat.{ℕ}
use mathlib.Core.Path.{◌≡◌, refl}
use mathlib.Core.Logic.{◌≢◌}
use mathlib.Core.Bool.{false}
use native.Mathlib.Omega.{arith}
use e_callisto_ng.Prelude.Tests.{◌==◌, if◌then◌else◌, ==_refl}

module _ {ℓ} {A : Type ℓ} where
  abbrev pub put : (ℕ → A) → ℕ → A → ℕ → A
  put f i a j = if i == j then a else f j

  pub put_same : (f : ℕ → A) (i : ℕ) (a : A) → put f i a i ≡ a
  put_same f i a = rw (==_refl i) refl

  pub put_other : (f : ℕ → A) (i j : ℕ) (a : A) → i ≢ j → put f i a j ≡ f j
  put_other f i j a h = rw (neq i j h) refl
    where
      neq : (i j : ℕ) → i ≢ j → (i == j) ≡ false
      neq i j h = ground arith

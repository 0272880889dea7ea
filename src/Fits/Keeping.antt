-- ===== src/Fits/Keeping.antt =====
-- No file of a directory is lost to a new one.
use e_callisto_ng.Prelude.{
  ℕ, zero, suc, ◌+◌, ◌≡◌, refl, ap, Bool, true, false, ◌&&◌, Bool-cases, inl, inr, Option, none,
  some, is_some, List, ◌++◌, arith,
}
use e_callisto_ng.Prelude.Text.{codes, same_text, same_text-eq, same_text_longer, same_text_refl}
use e_callisto_ng.Fits.{Dir, candidate, extension, store_file, unique_from, unique_path}

-- All the names that `_unique_path` tries are taken.
abbrev pub taken_from {ℓ} : {A : Type ℓ} → Dir A → List ℕ → ℕ → ℕ → Bool
taken_from dir stem i zero = true
taken_from dir stem i (suc left) =
    is_some (dir (candidate stem i)) && taken_from dir stem (i + 1) left

module _ {ℓ} {A : Type ℓ} where
  unique_from_free :
      (dir : Dir A) (stem : List ℕ) (i left : ℕ)
      → taken_from dir stem i left ≡ false
      → is_some (dir (unique_from dir stem i left)) ≡ false
  unique_from_free dir stem i zero h = cc
  unique_from_free dir stem i (suc left) h = ground (arith, unique_from_free dir stem (i + 1) left)

  unique_path_free :
      (dir : Dir A) (stem : List ℕ)
      → (is_some (dir (stem ++ extension)) && taken_from dir stem 1 999) ≡ false
      → is_some (dir (unique_path dir stem)) ≡ false
  unfolding unique_path
  unique_path_free dir stem h = elim (Bool-cases (is_some (dir (stem ++ extension)))) [
    | inl e ↦ rw e (unique_from_free dir stem 1 999 (ground arith))
    | inr e ↦ rw e e
  ]

  -- A file that is written while one of the thousand names for its second is free gets a name that no
  -- file had, holds what was written, and leaves every other file as it was, but for a left-over
  -- of its own temporary name.
  pub store_file_keeps :
      (dir : Dir A) (stem : List ℕ) (content : A) (name : List ℕ)
      → (is_some (dir (stem ++ extension)) && taken_from dir stem 1 999) ≡ false
      → is_some (dir name) ≡ true
      → same_text (unique_path dir stem ++ codes ".tmp") name ≡ false
      → let (path, after) = store_file dir stem content in
        (dir path ≡ none) × (after path ≡ some content) × (after name ≡ dir name)
  unfolding store_file
  store_file_keeps dir stem content name room there other =
      let free = unique_path_free dir stem room in
      let path = unique_path dir stem in
      (
        nothing (dir path) free,
        rw (same_text_longer path _ _) (rw (same_text_refl path) refl),
        simp (other, elsewhere path free) refl,
      )
    where
      nothing : (o : Option A) → is_some o ≡ false → o ≡ none
      nothing none e = refl
      nothing (some a) e = cc

      elsewhere : (path : List ℕ) → is_some (dir path) ≡ false → same_text path name ≡ false
      elsewhere path free = elim (Bool-cases (same_text path name)) [
        | inl e ↦ absurd (ground (arith, ap (λ n. is_some (dir n)) (same_text-eq path name e)))
        | inr e ↦ e
      ]

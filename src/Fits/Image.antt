-- ===== src/Fits/Image.antt =====
-- The image: one row a channel, the last channel first, as the frequency axis has them.
use e_callisto_ng.Prelude.{
  ℕ, zero, suc, ◌+◌, ◌-◌, ◌<◌, ◌≤◌, ◌≡◌, refl, sym, subst, ap, ◌∙◌, true, false, Bool-cases, inl,
  inr, Option, some, List, [], ◌∷◌, ◌++◌, length, length-append, get_elem?, all, ◌==◌, arith,
}
use e_callisto_ng.Fits.{
  Dir, Frame, Product, Recording, calibrated_frames, column, columns, converted_frames, first_width,
  image_of, reverse, stem_of, store_file, write,
}

module _ {ℓ} {A : Type ℓ} where
  get_elem?_left :
      (xs ys : List A) (k : ℕ) → k < length xs → get_elem? (xs ++ ys) k ≡ get_elem? xs k
  get_elem?_left [] ys k h = absurd (omega arith)
  get_elem?_left (x ∷ xs) ys zero h = refl
  get_elem?_left (x ∷ xs) ys (suc k) h = get_elem?_left xs ys k (omega arith)

  get_elem?_end : (xs : List A) (y : A) → get_elem? (xs ++ y ∷ []) (length xs) ≡ some y
  get_elem?_end [] y = refl
  get_elem?_end (x ∷ xs) y = get_elem?_end xs y

  length-reverse : (xs : List A) → length (reverse xs) ≡ length xs
  length-reverse [] = refl
  length-reverse (x ∷ xs) = omega (arith, length-append (reverse xs) (x ∷ []), length-reverse xs)

  get_elem?-reverse :
      (xs : List A) (k : ℕ)
      → k < length xs
      → get_elem? (reverse xs) k ≡ get_elem? xs (length xs - 1 - k)
  get_elem?-reverse [] k h = absurd (omega arith)
  get_elem?-reverse (x ∷ xs) k h = elim (Bool-cases (k == length xs)) [
    | inl e ↦
        let at : k ≡ length xs = ground arith in
        let last : k ≡ length (reverse xs) = omega (arith, length-reverse xs) in
        let start : length (x ∷ xs) - 1 - k ≡ 0 = omega arith in
        rw start (ap (get_elem? (reverse xs ++ x ∷ [])) last ∙ get_elem?_end (reverse xs) x)
    | inr e ↦
        let before : k < length xs = ground arith in
        let next : length (x ∷ xs) - 1 - k ≡ suc (length xs - 1 - k) = omega arith in
        rw next (
          get_elem?_left (reverse xs) (x ∷ []) k (omega (arith, length-reverse xs))
          ∙ get_elem?-reverse xs k before)
  ]

get_elem?_found :
    {A : Type 0} (xs : List A) (i : ℕ) → i < length xs → (x : A) × (get_elem? xs i ≡ some x)
get_elem?_found [] i h = absurd (omega arith)
get_elem?_found (x ∷ xs) zero h = (x, refl)
get_elem?_found (x ∷ xs) (suc i) h = get_elem?_found xs i (omega arith)

column_found :
    (n i : ℕ) (frames : List (List ℕ))
    → all (λ f. length f == n) frames ≡ true
    → i < n
    → (vs : List ℕ) × (column i frames ≡ some vs)
column_found n i [] h lt = ([], refl)
column_found n i (frame ∷ frames) h lt =
    let (v, e) = get_elem?_found frame i (ground arith) in
    let (vs, es) = column_found n i frames (ground arith) lt in (v ∷ vs, rw (e, es) refl)

columns_found :
    (n i k : ℕ) (frames : List (List ℕ))
    → all (λ f. length f == n) frames ≡ true
    → i + k ≤ n
    → (rows : List (List ℕ)) × (columns i k frames ≡ some rows)
      × (length rows ≡ k)
      × ((j : ℕ) → j < k → get_elem? rows j ≡ column (i + j) frames)
columns_found n i zero frames h le = ([], refl, refl, λ j lt. absurd (omega arith))
columns_found n i (suc k) frames h le =
    let (vs, e) = column_found n i frames h (omega arith) in
    let (rows, es, len, at) = columns_found n (i + 1) k frames h (omega arith) in
    (vs ∷ rows, rw (e, es) refl, ap suc len, each vs rows e at)
  where
    each :
        (vs : List ℕ) (rows : List (List ℕ))
        → column i frames ≡ some vs
        → ((j : ℕ) → j < k → get_elem? rows j ≡ column (i + 1 + j) frames)
        → (j : ℕ) → j < suc k
        → get_elem? (vs ∷ rows) j ≡ column (i + j) frames
    each vs rows e at zero lt = sym e ∙ ap (λ m. column m frames) (omega arith)
    each vs rows e at (suc j) lt = at j (omega arith) ∙ ap (λ m. column m frames) (omega arith)

image_of_even :
    (n : ℕ) (frames rows : List (List ℕ))
    → n ≡ first_width frames
    → 0 < n
    → all (λ g. length g == n) frames ≡ true
    → columns 0 n frames ≡ some rows
    → image_of frames ≡ some (reverse rows)
unfolding image_of
image_of_even n frames rows width some_row h e =
    let filled : (first_width frames == 0) ≡ false = ground arith in
    rw filled (
      rw (subst (λ m. all (λ g. length g == m) frames ≡ true) width h)
        (rw (subst (λ m. columns 0 m frames ≡ some rows) width e) refl))

image_of_found :
    (n : ℕ) (f : List ℕ) (fs : List (List ℕ))
    → 0 < n
    → all (λ g. length g == n) (f ∷ fs) ≡ true
    → (rows : List (List ℕ)) × (image_of (f ∷ fs) ≡ some rows)
      × ((k : ℕ) → k < n → get_elem? rows k ≡ column (n - 1 - k) (f ∷ fs))
image_of_found n f fs some_row h =
    let (rows, e, len, at) = columns_found n 0 n (f ∷ fs) h (omega arith) in
    let width : length f ≡ n = ground arith in
    (
      reverse rows,
      image_of_even n (f ∷ fs) rows (sym width) some_row h e,
      λ k lt.
          get_elem?-reverse rows k (omega (arith, len))
          ∙ rw len (at (n - 1 - k) (omega arith) ∙ ap (λ m. column m (f ∷ fs)) (omega arith)),
    )

-- For a recording with channels and a first frame whose calibrated frames numpy converts to eight
-- bits, with a sample for each channel in every frame, `write` succeeds, and in the file the k-th
-- row of the image holds the converted samples, in the order of the frames, of the channel whose
-- frequency stands k-th on the axis: the k-th from the end. The start is the time of the first
-- frame.
pub write_rows :
    (as_uint8 : ℕ → Option ℕ) (f : List ℕ → Option (List ℕ)) (r : Recording) (dir : Dir Product)
    (first : Frame) (rest : List Frame) (values : List (List ℕ)) (sample : List ℕ)
    (samples : List (List ℕ)) (k : ℕ)
    → r.frames ≡ first ∷ rest
    → calibrated_frames f (first ∷ rest) ≡ some values
    → converted_frames as_uint8 values ≡ some (sample ∷ samples)
    → all (λ g. length g == length r.channels) (sample ∷ samples) ≡ true
    → k < length r.channels
    → (product : Product) × (write as_uint8 f r dir
        ≡ some (store_file dir (stem_of r.instrument first.timestamp r.focus_code) product))
      × (product.start ≡ first.timestamp)
      × (get_elem? product.image k ≡ column (length r.channels - 1 - k) (sample ∷ samples))
      × (get_elem? product.frequencies k ≡ get_elem? r.channels (length r.channels - 1 - k))
unfolding write
write_rows as_uint8 f r dir first rest values sample samples k frames good bytes full lt =
    let (rows, e, at) = image_of_found (length r.channels) sample samples (omega arith) full in
    let some_channel : (length r.channels == 0) ≡ false = ground arith in
    (
      record { start = first.timestamp; image = rows; frequencies = reverse r.channels },
      rw frames (rw good (rw bytes (simp (some_channel, e) refl))),
      refl,
      at k lt,
      get_elem?-reverse r.channels k lt,
    )

-- ===== src/Frequencies/Chosen.antt =====
-- The channels that are chosen, on the tuner's grid.
use e_callisto_ng.Prelude.{
  ℕ, suc, ◌+◌, ◌-◌, ◌*◌, ◌/◌, ◌<◌, ◌≤◌, min, max, ◌≡◌, refl, ap, ◌∙◌, ◌⊎◌, inl, inr, true, false,
  Bool-cases, Option, none, some, List, [], ◌∷◌, ◌++◌, map, replicate, All, length, ltb, leb, arith,
}
use e_callisto_ng.Frequencies.{
  Band, Mode, Point, excluded_width, generate_frequencies, grid, is_excluded, is_unknown,
  linear_channels, round_div, scaled_band, scaled_point, snap, sorted,
}
use e_callisto_ng.Frequencies.Bins.{Fits, InBand, ahead, length-selections, selections-InBand}
use native.Mathlib.Nat.{div-add-mod', le_of_mul-le-mul_left, mod-lt, mul-le-mul_left, mul-sub}

-- On either side of the excluded band, to half a step of the grid.
abbrev pub IsOutside : Option Band → ℕ → Type 0
IsOutside none f = Unit
IsOutside (some b) f = (2 * f ≤ 2 * b.lo + grid) ⊎ (2 * b.hi ≤ 2 * f + grid)

pub record Suits (start stop : ℕ) (band : Option Band) (f : ℕ) : Type 0 where
  pub above : 2 * start ≤ 2 * f + grid
  pub below : 2 * f ≤ 2 * stop + grid
  pub outside : IsOutside band f

mul_min : (m a b : ℕ) → min (m * a) (m * b) ≡ m * min a b
mul_min m a b = elim (Bool-cases (leb a b)) [
  | inl e ↦
      let le : a ≤ b = ground arith in
      let less = mul-le-mul_left m le in
      let one : min (m * a) (m * b) ≡ m * a = omega (arith, less) in
      one ∙ ap (λ x. m * x) (omega arith)
  | inr e ↦
      let le : b ≤ a = ground arith in
      let less = mul-le-mul_left m le in
      let one : min (m * a) (m * b) ≡ m * b = omega (arith, less) in
      one ∙ ap (λ x. m * x) (omega arith)
]

mul_max : (m a b : ℕ) → max (m * a) (m * b) ≡ m * max a b
mul_max m a b = elim (Bool-cases (leb a b)) [
  | inl e ↦
      let le : a ≤ b = ground arith in
      let less = mul-le-mul_left m le in
      let one : max (m * a) (m * b) ≡ m * b = omega (arith, less) in
      one ∙ ap (λ x. m * x) (omega arith)
  | inr e ↦
      let le : b ≤ a = ground arith in
      let less = mul-le-mul_left m le in
      let one : max (m * a) (m * b) ≡ m * a = omega (arith, less) in
      one ∙ ap (λ x. m * x) (omega arith)
]

round_div_near :
    (a b : ℕ)
    → 0 < b
    → (2 * (round_div a b * b) ≤ 2 * a + b) × (2 * a ≤ 2 * (round_div a b * b) + b)
round_div_near a b p =
    let whole = div-add-mod' a b in
    let small = mod-lt a p in
    let up : (a / b + 1) * b ≡ a / b * b + b = grind arith in
    (ground (arith, whole, small, up), ground (arith, whole, small, up))

snap_near :
    (m f : ℕ)
    → 0 < m
    → (2 * (m * snap m f) ≤ 2 * f + m * grid) × (2 * f ≤ 2 * (m * snap m f) + m * grid)
unfolding snap
snap_near m f p =
    let (over, under) = round_div_near f (m * grid) (omega (arith, p)) in
    let same : round_div f (m * grid) * (m * grid) ≡ m * (round_div f (m * grid) * grid) =
      grind arith in
    (omega (arith, over, same), omega (arith, under, same))

scaled_ahead :
    (m start stop : ℕ) (band : Option Band)
    → ahead (scaled_band m band) (m * start) (m * stop) (m * start)
      ≤ m * excluded_width band start stop
scaled_ahead m start stop none = omega arith
scaled_ahead m start stop (some b) =
    let low = mul_max m b.lo start in
    let high = mul_min m b.hi stop in
    let width = mul-sub m (min b.hi stop) (max b.lo start) in ground (arith, low, high, width)

linear-Fits :
    (m start stop : ℕ) (band : Option Band)
    → start + excluded_width band start stop < stop
    → Fits
        (scaled_band m band)
        (m * start)
        (m * stop)
        (m * start)
        (m * (stop - start - excluded_width band start stop))
linear-Fits m start stop band room =
    let e = excluded_width band start stop in
    let all : stop ≡ start + (stop - start - e) + e = omega arith in
    let scaled : m * stop ≡ m * start + m * (stop - start - e) + m * e =
      ap (λ x. m * x) all ∙ grind arith in
    record {
      from_start = omega arith;
      to_stop = omega (arith, scaled, scaled_ahead m start stop band);
    }

IsOutside-scaled :
    (m f out : ℕ) (band : Option Band)
    → 0 < m
    → is_excluded (scaled_band m band) f ≡ false
    → 2 * (m * out) ≤ 2 * f + m * grid
    → 2 * f ≤ 2 * (m * out) + m * grid
    → IsOutside band out
IsOutside-scaled m f out none p e over under = tt
IsOutside-scaled m f out (some b) p e over under = elim (Bool-cases (leb (m * b.hi) f)) [
  | inl h ↦
      let far : m * (2 * b.hi) ≤ m * (2 * out + grid) = grind arith in
      inr (le_of_mul-le-mul_left far p)
  | inr h ↦
      let near : f ≤ m * b.lo = ground arith in
      let far : m * (2 * out) ≤ m * (2 * b.lo + grid) = grind arith in
      inl (le_of_mul-le-mul_left far p)
]

snap-Suits :
    (m start stop f : ℕ) (band : Option Band)
    → 0 < m
    → InBand (scaled_band m band) (m * start) (m * stop) f
    → Suits start stop band (snap m f)
snap-Suits m start stop f band p h =
    let (over, under) = snap_near m f p in
    let low : m * (2 * start) ≤ m * (2 * snap m f + grid) = grind (arith, h.above, under) in
    let high : m * (2 * snap m f) ≤ m * (2 * stop + grid) = grind (arith, h.below, over) in
    record {
      above = le_of_mul-le-mul_left low p;
      below = le_of_mul-le-mul_left high p;
      outside = IsOutside-scaled m f (snap m f) band p h.free over under;
    }

map-Suits :
    (m start stop : ℕ) (band : Option Band) (fs : List ℕ)
    → 0 < m
    → All (InBand (scaled_band m band) (m * start) (m * stop)) fs
    → All (Suits start stop band) (map (snap m) fs)
map-Suits m start stop band [] p h = tt
map-Suits m start stop band (f ∷ fs) p h =
    (snap-Suits m start stop f band p h.0, map-Suits m start stop band fs p h.1)

length-map-snap : (m : ℕ) (fs : List ℕ) → length (map (snap m) fs) ≡ length fs
length-map-snap m [] = refl
length-map-snap m (f ∷ fs) = ap suc (length-map-snap m fs)

-- For a band that the excluded one does not cover and a valid count and mode, the program has the
-- channels pinned to the start, and then as many as are left, none of which is missing for the
-- excluded band: each lies between the start and the stop and outside the excluded band, to half a
-- step of the tuner's grid.
pub generate_frequencies-Suits :
    (overview : List Point) (start stop n : ℕ) (mode : Mode) (band : Option Band) (pinned : ℕ)
    → start + excluded_width band start stop < stop
    → is_unknown mode ≡ false
    → pinned < n
    → (fs : List ℕ) × (generate_frequencies overview start stop n mode band pinned
        ≡ some (replicate pinned (snap 1 start) ++ fs))
      × (length fs ≡ n - pinned)
      × All (Suits start stop band) fs
unfolding generate_frequencies linear_channels
generate_frequencies-Suits overview start stop n mode band pinned room known lt =
    let m = n - pinned in
    let p : 0 < m = omega arith in
    let step = stop - start - excluded_width band start stop in
    let points = sorted (map (scaled_point m) overview) in
    let some_channels : ltb n 1 ≡ false = ground arith in
    let up : leb stop start ≡ false = ground arith in
    let fewer : ltb pinned n ≡ true = ground arith in
    (
      linear_channels overview start stop m mode band,
      simp (some_channels, up, known, fewer) refl,
      length-map-snap m _
          ∙ length-selections (scaled_band m band) step points (m * start) (m * stop) (omega arith)
              mode m (m * start),
      map-Suits m start stop band _ p (
          selections-InBand (scaled_band m band) step points (m * start) (m * stop) (omega arith)
            mode m (m * start) (linear-Fits m start stop band room)),
    )

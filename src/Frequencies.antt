-- ===== src/Frequencies.antt =====
-- The choice of a frequency program's channels, src/ecallisto_ng/services/freqgen.py. Frequencies are
-- whole hertz outside, and within the choice of `m` channels multiples of 1/m Hz, so that the step
-- from one channel to the next is whole; amplitudes are natural numbers.
use e_callisto_ng.Prelude.{
  ℕ, zero, suc, ◌+◌, ◌-◌, ◌*◌, ◌/◌, ◌%◌, min, max, Bool, true, false, not, ◌&&◌, ◌||◌, Option, none,
  some, List, [], ◌∷◌, ◌++◌, map, replicate, if◌then◌else◌, ltb, leb, ◌==◌,
}
pub mod Bins
pub mod Chosen
mod Tests

-- The tuner's grid, in hertz.
abbrev pub grid : ℕ
grid = 62_500

pub record Point : Type 0 where
  pub frequency : ℕ
  pub amplitude : ℕ

pub record Band : Type 0 where
  pub lo : ℕ
  pub hi : ℕ

-- `unknown` is any other text.
pub data Mode : Type 0 where
  quiet even unknown : Mode

-- `round(a / b)`, to the even neighbour of a tie
abbrev pub round_div : ℕ → ℕ → ℕ
round_div a b =
    let q = a / b in
    let r = a % b in if ltb (2 * r) b then q else if ltb b (2 * r) then q + 1 else q + q % 2

-- `_snap` of `f` times 1/m Hz, in hertz
unfoldable pub snap : ℕ → ℕ → ℕ
snap m f = round_div f (m * grid) * grid

-- `_excluded`
abbrev pub is_excluded : Option Band → ℕ → Bool
is_excluded none f = false
is_excluded (some b) f = leb b.lo f && ltb f b.hi

abbrev comes_before : Point → Point → Bool
comes_before p q =
    ltb p.frequency q.frequency || (p.frequency == q.frequency && leb p.amplitude q.amplitude)

abbrev insert : Point → List Point → List Point
insert p [] = p ∷ []
insert p (q ∷ qs) = let rest = insert p qs in if comes_before p q then p ∷ q ∷ qs else q ∷ rest

-- `sorted(overview)`
abbrev pub sorted : List Point → List Point
sorted [] = []
sorted (p ∷ ps) = insert p (sorted ps)

-- Past the excluded band, when the edge of the bin is in it.
abbrev pub past_gap : Option Band → ℕ → ℕ
past_gap none f = f
past_gap (some b) f = if is_excluded (some b) f then b.hi else f

abbrev pub quieter : Option Point → Point → Option Point
quieter none p = some p
quieter (some best) p = if ltb p.amplitude best.amplitude then some p else some best

abbrev pub or_edge : ℕ → Option Point → ℕ
or_edge lo none = lo
or_edge lo (some p) = p.frequency

module _ (band : Option Band) (step : ℕ) where
  abbrev pub is_candidate : ℕ → Point → Bool
  is_candidate lo p =
      leb lo p.frequency && (ltb p.frequency (lo + step) && not (is_excluded band p.frequency))

  -- The first of the least amplitude in the bin, by a run over the points.
  abbrev pub quietest : ℕ → Option Point → List Point → Option Point
  quietest lo best [] = best
  quietest lo best (p ∷ ps) = quietest lo (if is_candidate lo p then quieter best p else best) ps

  module _ (points : List Point) where
    unfoldable pub select : Mode → ℕ → ℕ
    select quiet lo = or_edge lo (quietest lo none points)
    select _ lo = lo

    -- The loop over the bins, before the snap.
    unfoldable pub selections : Mode → ℕ → ℕ → List ℕ
    selections mode zero freq = []
    selections mode (suc n) freq =
        let lo = past_gap band freq in select mode lo ∷ selections mode n (lo + step)

abbrev pub excluded_width : Option Band → ℕ → ℕ → ℕ
excluded_width none start stop = 0
excluded_width (some b) start stop = min b.hi stop - max b.lo start

abbrev pub scaled_point : ℕ → Point → Point
scaled_point m p = record p { frequency = m * p.frequency }

abbrev pub scaled_band : ℕ → Option Band → Option Band
scaled_band m none = none
scaled_band m (some b) = some (record { lo = m * b.lo; hi = m * b.hi })

-- The `m` channels that are not pinned to the start.
unfoldable pub linear_channels : List Point → ℕ → ℕ → ℕ → Mode → Option Band → List ℕ
linear_channels overview start stop m mode band =
    let step = stop - start - excluded_width band start stop in
    map (snap m) (
      selections (scaled_band m band) step (sorted (map (scaled_point m) overview)) mode m
        (m * start))

abbrev pub is_unknown : Mode → Bool
is_unknown unknown = true
is_unknown _ = false

-- `none` is the ValueError.
unfoldable pub generate_frequencies :
    List Point → ℕ → ℕ → ℕ → Mode → Option Band → ℕ → Option (List ℕ)
generate_frequencies overview start stop n mode band nonlinear_start =
    if ltb n 1
    then none
    else if leb stop start
    then none
    else if is_unknown mode
    then none
    else if not (ltb nonlinear_start n)
    then none
    else some (
        replicate nonlinear_start (snap 1 start)
        ++ linear_channels overview start stop (n - nonlinear_start) mode band)

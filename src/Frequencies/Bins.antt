-- ===== src/Frequencies/Bins.antt =====
-- Where the bins lie, and that a bin's selection lies in it.
use e_callisto_ng.Prelude.{
  ℕ, zero, suc, ◌+◌, ◌-◌, ◌*◌, ◌<◌, ◌≤◌, min, max, ◌≡◌, refl, ap, subst, Bool, true, false, Option,
  none, some, List, [], ◌∷◌, All, length, if◌then◌else◌, ltb, arith,
}
use e_callisto_ng.Frequencies.{
  Band, Mode, Point, even, is_candidate, is_excluded, or_edge, past_gap, quiet, quieter, quietest,
  select, selections, unknown,
}

-- What the excluded band still takes from the bins from `f` on.
abbrev pub ahead : Option Band → ℕ → ℕ → ℕ → ℕ
ahead none start stop f = 0
ahead (some b) start stop f = if ltb f b.hi then min b.hi stop - max b.lo start else 0

-- The bins left, of width `w` together, fit between `f` and the stop.
pub record Fits (band : Option Band) (start stop f w : ℕ) : Type 0 where
  pub from_start : start ≤ f
  pub to_stop : f + w + ahead band start stop f ≤ stop

pub record InBand (band : Option Band) (start stop f : ℕ) : Type 0 where
  pub above : start ≤ f
  pub below : f < stop
  pub free : is_excluded band f ≡ false

past_gap-Fits :
    (band : Option Band) (start stop f w : ℕ)
    → 0 < w
    → Fits band start stop f w
    → Fits band start stop (past_gap band f) w
past_gap-Fits none start stop f w p h = h
past_gap-Fits (some b) start stop f w p h = record {
  from_start = ground (arith, h.from_start);
  to_stop = ground (arith, h.from_start, h.to_stop);
}

past_gap_free : (band : Option Band) (f : ℕ) → is_excluded band (past_gap band f) ≡ false
past_gap_free none f = refl
past_gap_free (some b) f = ground arith

Fits-next :
    (band : Option Band) (start stop f w step : ℕ)
    → Fits band start stop f (step + w)
    → Fits band start stop (f + step) w
Fits-next none start stop f w step h = record {
  from_start = omega (arith, h.from_start);
  to_stop = omega (arith, h.to_stop);
}
Fits-next (some b) start stop f w step h = record {
  from_start = omega (arith, h.from_start);
  to_stop = ground (arith, h.to_stop);
}

module _ (band : Option Band) (step : ℕ) where
  abbrev IsCandidate : ℕ → Option Point → Type 0
  IsCandidate lo none = Unit
  IsCandidate lo (some p) = is_candidate band step lo p ≡ true

  quieter-IsCandidate :
      (lo : ℕ) (best : Option Point) (p : Point)
      → IsCandidate lo best
      → IsCandidate lo (some p)
      → IsCandidate lo (quieter best p)
  quieter-IsCandidate lo none p h k = k
  quieter-IsCandidate lo (some best) p h k = go (ltb p.amplitude best.amplitude)
    where
      go : (b : Bool) → IsCandidate lo (if b then some p else some best)
      go true = k
      go false = h

  quietest-IsCandidate :
      (lo : ℕ) (ps : List Point) (best : Option Point)
      → IsCandidate lo best
      → IsCandidate lo (quietest band step lo best ps)
  quietest-IsCandidate lo [] best h = h
  quietest-IsCandidate lo (p ∷ ps) best h =
      quietest-IsCandidate lo ps _ (go (is_candidate band step lo p) refl)
    where
      go :
          (b : Bool)
          → is_candidate band step lo p ≡ b
          → IsCandidate lo (if b then quieter best p else best)
      go true e = quieter-IsCandidate lo best p h e
      go false e = h

  module _ (points : List Point) (start stop : ℕ) (positive : 0 < step) where
    edge-InBand :
        (lo w : ℕ)
        → Fits band start stop lo (step + w)
        → is_excluded band lo ≡ false
        → InBand band start stop lo
    edge-InBand lo w h e = record {
      above = h.from_start;
      below = omega (arith, h.to_stop);
      free = e;
    }

    or_edge-InBand :
        (lo w : ℕ) (o : Option Point)
        → Fits band start stop lo (step + w)
        → is_excluded band lo ≡ false
        → IsCandidate lo o
        → InBand band start stop (or_edge lo o)
    or_edge-InBand lo w none h e c = edge-InBand lo w h e
    or_edge-InBand lo w (some p) h e c = record {
      above = ground (arith, h.from_start, c);
      below = ground (arith, h.to_stop, c);
      free = ground (arith, c);
    }

    select-InBand :
        (mode : Mode) (lo w : ℕ)
        → Fits band start stop lo (step + w)
        → is_excluded band lo ≡ false
        → InBand band start stop (select band step points mode lo)
    unfolding select
    select-InBand quiet lo w h e =
        or_edge-InBand lo w _ h e (quietest-IsCandidate lo points none tt)
    select-InBand even lo w h e = edge-InBand lo w h e
    select-InBand unknown lo w h e = edge-InBand lo w h e

    pub selections-InBand :
        (mode : Mode) (n f : ℕ)
        → Fits band start stop f (n * step)
        → All (InBand band start stop) (selections band step points mode n f)
    unfolding selections
    selections-InBand mode zero f h = tt
    selections-InBand mode (suc n) f h =
        let width : suc n * step ≡ step + n * step = grind arith in
        let there =
          past_gap-Fits band start stop f (step + n * step) (omega arith)
            (subst (Fits band start stop f) width h) in
        (
          select-InBand mode (past_gap band f) (n * step) there (past_gap_free band f),
          selections-InBand mode n (past_gap band f + step)
              (Fits-next band start stop (past_gap band f) (n * step) step there),
        )

    pub length-selections :
        (mode : Mode) (n f : ℕ) → length (selections band step points mode n f) ≡ n
    unfolding selections
    length-selections mode zero f = refl
    length-selections mode (suc n) f = ap suc (length-selections mode n (past_gap band f + step))

-- ===== src/Acquisition/Slices.antt =====
-- What the files of a continuous recording hold.
use e_callisto_ng.Prelude.{
  ℕ, zero, suc, ◌+◌, ◌≤◌, ◌<◌, ◌≡◌, ◌≢◌, refl, sym, ◌∙◌, ap, Bool-cases, inl, inr, Bool, true,
  false, not, ◌&&◌, ◌||◌, Option, none, some, List, [], ◌∷◌, ◌++◌, append-nil, length, flatten,
  arith, if◌then◌else◌,
}
use e_callisto_ng.Acquisition.{
  SpectrumFrame, Act, Watchdog, flagged, driver_error, Driver, Run, BatchEnd, full, exhausted,
  corrupt, Batch, batch, with_acts, filed, cleanup, roll_on, rolling, record_continuous, handshake,
}

-- The frames up to the first that the watchdog flags.
abbrev pub accepted : Option Watchdog → List SpectrumFrame → List SpectrumFrame
accepted wd [] = []
accepted wd (f ∷ fs) = if flagged wd f then [] else f ∷ accepted wd fs

abbrev pub any_flagged : Option Watchdog → List SpectrumFrame → Bool
any_flagged wd [] = false
any_flagged wd (f ∷ fs) = flagged wd f || any_flagged wd fs

-- No file is empty or larger than `n`, and only the last may be smaller.
abbrev pub IsSliced : ℕ → List (List SpectrumFrame) → Type 0
IsSliced n [] = Unit
IsSliced n (f ∷ []) = (0 < length f) × (length f ≤ n)
IsSliced n (f ∷ g ∷ rest) = (length f ≡ n) × IsSliced n (g ∷ rest)

-- The frames that are left for the next files.
abbrev left_over : Option Watchdog → BatchEnd → List SpectrumFrame → List SpectrumFrame
left_over wd full rest = accepted wd rest
left_over wd exhausted rest = []
left_over wd corrupt rest = []

abbrev SizeFits : ℕ → BatchEnd → ℕ → Type 0
SizeFits n full k = k ≡ n
SizeFits n exhausted k = k < n
SizeFits n corrupt k = k < n

abbrev flag_seen : Option Watchdog → BatchEnd → List SpectrumFrame → Bool
flag_seen wd full rest = any_flagged wd rest
flag_seen wd exhausted rest = false
flag_seen wd corrupt rest = true

record BatchFine (wd : Option Watchdog) (n : ℕ) (fs : List SpectrumFrame) (b : Batch) : Type 0 where
  whole : accepted wd fs ≡ b.collected ++ left_over wd b.ended b.rest
  size : SizeFits n b.ended (length b.collected)
  shrinks : length b.rest + length b.collected ≤ length fs
  flag : any_flagged wd fs ≡ flag_seen wd b.ended b.rest

batch_lem :
    (wd : Option Watchdog) (n : ℕ) (fs : List SpectrumFrame) → BatchFine wd n fs (batch wd n fs)
unfolding batch
batch_lem wd zero fs = record { whole = refl; size = refl; shrinks = omega arith; flag = refl }
batch_lem wd (suc n) [] = record {
  whole = refl;
  size = omega arith;
  shrinks = omega arith;
  flag = refl;
}
batch_lem wd (suc n) (f ∷ fs) = ground (arith, batch_lem wd n fs)

-- What a run of files holds, when no file fails to be written; `fails` says that the cleanup raises.
pub record IsRolled (wd : Option Watchdog) (fails raises : Bool) (n : ℕ) (fs : List SpectrumFrame)
    (r : Run) : Type 0 where
  pub whole : flatten r.files ≡ accepted wd fs
  pub sliced : IsSliced n r.files
  pub error :
      r.error ≡ (if fails || (raises && not (any_flagged wd fs)) then some driver_error else none)

IsSliced-cons :
    (n : ℕ) (f : List SpectrumFrame) (files : List (List SpectrumFrame))
    → 0 < length f
    → length f ≡ n
    → IsSliced n files
    → IsSliced n (f ∷ files)
IsSliced-cons n f [] p e h = (p, omega arith)
IsSliced-cons n f (g ∷ rest) p e h = (e, h)

module _ (writes : List SpectrumFrame → Bool) (wd : Option Watchdog)
    (all_written : (f : List SpectrumFrame) → writes f ≡ true) (d : Driver) (n : ℕ)
    (positive : 0 < n) where
  roll_on_last :
      (fs c rest : List SpectrumFrame) (a : List Act) (e : BatchEnd) (next : Option Run)
      → BatchFine wd n fs (record { collected = c; acts = a; ended = e; rest = rest })
      → e ≢ full
      → (r : Run) × (roll_on writes wd d
            (record { collected = c; acts = a; ended = e; rest = rest })
            e
            next
          ≡ some r)
        × IsRolled wd false d.stream_raises n fs r
  unfolding roll_on
  roll_on_last fs c rest a full next h k = absurd (k refl)
  roll_on_last fs [] rest a corrupt next h k = (_, refl, ground arith)
  roll_on_last fs (x ∷ xs) rest a corrupt next h k =
      rw (all_written (x ∷ xs)) (_, refl, ground (arith, append-nil xs))
  roll_on_last fs [] rest a exhausted next h k = elim (Bool-cases d.stream_raises) [
    | inl e ↦ rw e (_, refl, ground arith)
    | inr e ↦ rw e (_, refl, ground arith)
  ]
  roll_on_last fs (x ∷ xs) rest a exhausted next h k = elim (Bool-cases d.stream_raises) [
    | inl e ↦ rw (e, all_written (x ∷ xs)) (_, refl, ground arith)
    | inr e ↦ rw (e, all_written (x ∷ xs)) (_, refl, ground arith)
  ]

  roll_on_full :
      (fs c rest : List SpectrumFrame) (a : List Act) (r : Run)
      → BatchFine wd n fs (record { collected = c; acts = a; ended = full; rest = rest })
      → IsRolled wd false d.stream_raises n rest r
      → (r' : Run) × (roll_on writes wd d
            (record { collected = c; acts = a; ended = full; rest = rest })
            full
            (some r)
          ≡ some r')
        × IsRolled wd false d.stream_raises n fs r'
  unfolding roll_on
  roll_on_full fs [] rest a r h g = absurd (omega (arith, h.size))
  roll_on_full fs (x ∷ xs) rest a r h g = (
    record { files = (x ∷ xs) ∷ r.files; acts = a ++ filed (x ∷ xs) ∷ r.acts; error = r.error },
    ground (arith, all_written (x ∷ xs)),
    record {
      whole = ap (λ t. (x ∷ xs) ++ t) g.whole ∙ sym h.whole;
      sliced = IsSliced-cons n (x ∷ xs) r.files (omega arith) h.size g.sliced;
      error =
          g.error
          ∙ ap (λ b. if d.stream_raises && not b then some driver_error else none) (sym h.flag);
    },
  )

  roll_on_lem :
      (fs c rest : List SpectrumFrame) (a : List Act) (e : BatchEnd) (next : Option Run)
      → BatchFine wd n fs (record { collected = c; acts = a; ended = e; rest = rest })
      → (e ≡ full → (r : Run) × (next ≡ some r) × IsRolled wd false d.stream_raises n rest r)
      → (r : Run) × (roll_on writes wd d
            (record { collected = c; acts = a; ended = e; rest = rest })
            e
            next
          ≡ some r)
        × IsRolled wd false d.stream_raises n fs r
  roll_on_lem fs c rest a full next h k =
      let (r, q, g) = k refl in rw q (roll_on_full fs c rest a r h g)
  roll_on_lem fs c rest a exhausted next h k = roll_on_last fs c rest a exhausted next h (λ p. cc)
  roll_on_lem fs c rest a corrupt next h k = roll_on_last fs c rest a corrupt next h (λ p. cc)

  -- With fuel for one file more than there are frames the loop ends.
  rolling_lem :
      (fuel : ℕ) (fs : List SpectrumFrame)
      → length fs < fuel
      → (r : Run) × (rolling writes wd d n fuel fs ≡ some r)
        × IsRolled wd false d.stream_raises n fs r
  unfolding rolling
  rolling_lem zero fs h = absurd (omega arith)
  rolling_lem (suc fuel) fs h =
      let b = batch wd n fs in
      roll_on_lem fs b.collected b.rest b.acts b.ended _ (batch_lem wd n fs)
        (λ e. rolling_lem fuel b.rest (fewer b (batch_lem wd n fs) e))
    where
      fewer : (b : Batch) → BatchFine wd n fs b → b.ended ≡ full → length b.rest < fuel
      fewer b f e = ground (arith, f.size)

  -- When every file can be written and the handshake goes through: with fuel for one file more than
  -- there are frames, a continuous recording ends, whether its stream ends or raises; its files in
  -- order hold exactly the frames before the first that the watchdog flags; none is empty or above
  -- the size asked for, and only the last may be below it; and it raises what the stream raised,
  -- unless a flagged frame came first, or what its cleanup raised.
  pub record_continuous_keeps :
      (fuel : ℕ)
      → length d.frames < fuel
      → (handshake d).1 ≡ false
      → (r : Run) × (record_continuous writes wd fuel d n ≡ some r)
        × IsRolled wd (d.stop_fails || d.close_fails) d.stream_raises n d.frames r
  unfolding record_continuous
  record_continuous_keeps fuel h ready =
      let (r, e, g) = rolling_lem fuel d.frames h in
      (
        cleanup d (with_acts (handshake d).0 r),
        ground (arith, e),
        record {
          whole = g.whole;
          sliced = g.sliced;
          error =
              ap (λ e. if d.stop_fails || d.close_fails then some driver_error else e) g.error
              ∙ joined (d.stop_fails || d.close_fails)
                  (d.stream_raises && not (any_flagged wd d.frames));
        },
      )
    where
      joined :
          (a b : Bool)
          → (if a then some driver_error else if b then some driver_error else none)
            ≡ (if a || b then some driver_error else none)
      joined true b = refl
      joined false b = refl

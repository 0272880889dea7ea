-- ===== src/Acquisition/Cleanup.antt =====
-- However a continuous recording goes, the driver is stopped at its end, and closed if it stops.
use e_callisto_ng.Prelude.{
  ℕ, zero, suc, ◌<◌, ◌≡◌, refl, subst, ap, Bool, false, Bool-cases, inl, inr, Option, none, some,
  List, [], ◌∷◌, ◌++◌, All, All-append, arith, ltb, if◌then◌else◌,
}
use e_callisto_ng.Acquisition.{
  SpectrumFrame, Watchdog, Act, connect, identify, configure, start, stop, close, driver_error,
  Driver, Run, BatchEnd, full, exhausted, corrupt, Batch, batch, flush, with_acts, failed, cleanup,
  cleanup_acts, then_run, roll_on, rolling, record_continuous, handshake,
}

-- Every call but those of the cleanup.
abbrev pub IsWork : Act → Type 0
IsWork stop = ⊥
IsWork close = ⊥
IsWork _ = Unit

-- Work that begins with `connect`, then `stop`, and `close` if `stop` does not raise, once each.
abbrev pub IsReleased : Bool → List Act → Type 0
IsReleased stop_fails acts =
    (work : List Act) × (acts
      ≡ connect ∷ work ++ (if stop_fails then stop ∷ [] else stop ∷ close ∷ []))
    × All IsWork work

batch-IsWork :
    (wd : Option Watchdog) (n : ℕ) (fs : List SpectrumFrame) → All IsWork (batch wd n fs).acts
unfolding batch
batch-IsWork wd zero fs = tt
batch-IsWork wd (suc n) [] = tt
batch-IsWork wd (suc n) (f ∷ fs) = ground (arith, batch-IsWork wd n fs)

abbrev WorkRun : Option Run → Type 0
WorkRun none = Unit
WorkRun (some r) = All IsWork r.acts

module _ (writes : List SpectrumFrame → Bool) (wd : Option Watchdog) (d : Driver) where
  flush-IsWork : (c : List SpectrumFrame) → All IsWork (flush writes c).acts
  unfolding flush
  flush-IsWork [] = tt
  flush-IsWork (f ∷ fs) = ground arith

  then_run-IsWork :
      (r n : Run) → All IsWork r.acts → All IsWork n.acts → All IsWork (then_run r n).acts
  then_run-IsWork r n h k = ground (arith, All-append IsWork r.acts n.acts h k)

  roll_on-IsWork :
      (b : Batch) (e : BatchEnd) (next : Option Run)
      → All IsWork b.acts
      → WorkRun next
      → WorkRun (roll_on writes wd d b e next)
  unfolding roll_on
  roll_on-IsWork b corrupt next h k = All-append IsWork b.acts _ h (flush-IsWork b.collected)
  roll_on-IsWork b exhausted next h k = elim (Bool-cases d.stream_raises) [
    | inl e ↦ rw e (
        All-append IsWork b.acts _ h (
          then_run-IsWork (flush writes b.collected) (failed driver_error)
            (flush-IsWork b.collected) tt))
    | inr e ↦ rw e (All-append IsWork b.acts _ h (flush-IsWork b.collected))
  ]
  roll_on-IsWork b full none h k =
      ground (
        arith,
        All-append IsWork b.acts (flush writes b.collected).acts h (flush-IsWork b.collected),
      )
  roll_on-IsWork b full (some n) h k = ground (
    arith,
    All-append IsWork b.acts (flush writes b.collected).acts h (flush-IsWork b.collected),
    All-append IsWork b.acts (then_run (flush writes b.collected) n).acts h
        (then_run-IsWork (flush writes b.collected) n (flush-IsWork b.collected) k),
  )

  rolling-IsWork : (n fuel : ℕ) (fs : List SpectrumFrame) → WorkRun (rolling writes wd d n fuel fs)
  unfolding rolling
  rolling-IsWork n zero fs = tt
  rolling-IsWork n (suc fuel) fs =
      roll_on-IsWork (batch wd n fs) (batch wd n fs).ended _ (batch-IsWork wd n fs)
        (rolling-IsWork n fuel (batch wd n fs).rest)

  handshake_connects : (work : List Act) × ((handshake d).0 ≡ connect ∷ work) × All IsWork work
  unfolding handshake
  handshake_connects = elim (Bool-cases d.connect_fails) [
    | inl e ↦ rw e ([], refl, tt)
    | inr e ↦ rw e (elim (Bool-cases d.identify_fails) [
      | inl f ↦ rw f (identify ∷ [], refl, (tt, tt))
      | inr f ↦ rw f (elim (Bool-cases d.configure_fails) [
        | inl g ↦ rw g (identify ∷ configure ∷ [], refl, (tt, (tt, tt)))
        | inr g ↦ rw g (identify ∷ configure ∷ start ∷ [], refl, (tt, (tt, (tt, tt))))
      ])
    ])
  ]

  released :
      (r : Run)
      → All IsWork r.acts
      → IsReleased d.stop_fails (cleanup d (with_acts (handshake d).0 r)).acts
  released r h =
      let (work, e, k) = handshake_connects in
      (
        work ++ r.acts,
        ap (λ a. (a ++ r.acts) ++ cleanup_acts d) e,
        All-append IsWork work r.acts k h,
      )

  abbrev ReleasedRun : Option Run → Type 0
  ReleasedRun none = Unit
  ReleasedRun (some r) = IsReleased d.stop_fails r.acts

  released_run :
      (o : Option Run)
      → WorkRun o
      → ReleasedRun
          (elim o [ none ↦ none | some r ↦ some (cleanup d (with_acts (handshake d).0 r)) ])
  released_run none h = tt
  released_run (some r) h = released r h

  record_continuous_run :
      (fuel per_file : ℕ) → 0 < per_file → ReleasedRun (record_continuous writes wd fuel d per_file)
  unfolding record_continuous
  record_continuous_run fuel per_file p = rw (some_frames p) (elim (Bool-cases (handshake d).1) [
    | inl raises ↦ rw raises (released (failed driver_error) tt)
    | inr ready ↦ rw ready (
        released_run (rolling writes wd d per_file fuel d.frames)
          (rolling-IsWork per_file fuel d.frames))
  ])
    where
      some_frames : {n : ℕ} → 0 < n → ltb n 1 ≡ false
      some_frames h = ground arith

  -- Whatever raises, the handshake, the stream or the writer, and however the stream ends: a
  -- continuous recording that was asked for files of at least one frame first calls `connect`, and
  -- ends with `stop`, and then `close` unless that `stop` raises; it calls neither anywhere else.
  pub record_continuous_releases :
      (fuel per_file : ℕ) (r : Run)
      → 0 < per_file
      → record_continuous writes wd fuel d per_file ≡ some r
      → IsReleased d.stop_fails r.acts
  record_continuous_releases fuel per_file r p e =
      subst ReleasedRun e (record_continuous_run fuel per_file p)

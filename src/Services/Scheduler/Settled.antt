-- ===== src/Services/Scheduler/Settled.antt =====
-- What a tick leaves of every recording.
use e_callisto_ng.Prelude.{
  ℕ, is_some, ◌≡◌, refl, sym, ap, ◌∙◌, subst, inl, inr, Bool, true, false, ◌||◌, Bool-cases, Option,
  none, some, List, [], ◌∷◌, ◌==◌, if◌then◌else◌, arith,
}
use e_callisto_ng.Services.Recorder.{Job}
use e_callisto_ng.Services.Runtime.{Table, get_desired}
use e_callisto_ng.Services.Scheduler.{
  Env, Instrument, Turn, World, act, desired, gate_ok, proceed, tick, visit, visit_some, visit_with,
}
use e_callisto_ng.Services.Scheduler.Visit.{
  is_live, is_halted, proceed_jobs, act_halts, act_starts, proceed_raised, visit_live, visit_rows,
  visit_other, act_returns,
}

-- What a tick is to leave of a recording, given the intent and the gate.
abbrev pub is_settled : Bool → Bool → Option Job → Bool
is_settled true gate o = if gate then is_live o else true
is_settled false gate o = is_halted o

module _ (v : Env) (now : ℕ) where
  desired_ext :
      (k : ℕ) (rows rows' : Table)
      → get_desired k rows' ≡ get_desired k rows
      → desired v now k rows' ≡ desired v now k rows
  unfolding desired
  desired_ext k rows rows' h = ground arith

  visit_settles :
      (i rate : ℕ) (w : World) (want : Bool)
      → v.stops i ≡ true
      → (visit_with v now i rate w (some want)).raised ≡ false
      → is_settled want (gate_ok v) ((visit_with v now i rate w (some want)).world.jobs i) ≡ true
  visit_settles i rate w true s h = elim (Bool-cases (gate_ok v)) [
    | inl g ↦ rw g (
        ap (λ jobs. is_live (jobs i)) (proceed_jobs v now i (act v now i true w) true rate)
        ∙ act_starts v now i w g (sym (proceed_raised v now i (act v now i true w) true rate) ∙ h))
    | inr shut ↦ rw shut refl
  ]
  visit_settles i rate w false s h =
      ap (λ jobs. is_halted (jobs i)) (proceed_jobs v now i (act v now i false w) false rate)
      ∙ act_halts v now i w s

  live_of :
      (o : Option Job) → gate_ok v ≡ true → is_settled true (gate_ok v) o ≡ true → is_live o ≡ true
  live_of o g h = ground arith

  visit_keeps :
      (i rate : ℕ) (want : Bool) (w : World)
      → v.stops i ≡ true
      → is_settled want (gate_ok v) (w.jobs i) ≡ true
      → is_settled want (gate_ok v) ((visit_with v now i rate w (some want)).world.jobs i) ≡ true
  visit_keeps i rate true w s h = elim (Bool-cases (gate_ok v)) [
    | inl g ↦
        rw g
          (ap is_live (visit_live v now i rate w (live_of (w.jobs i) g h)) ∙ live_of (w.jobs i) g h)
    | inr shut ↦ rw shut refl
  ]
  visit_keeps i rate false w s h =
      ap (λ jobs. is_halted (jobs i)) (proceed_jobs v now i (act v now i false w) false rate)
      ∙ act_halts v now i w s

  proceed_tick :
      (P : Turn → Type 0) (t : Turn) (insts : List Instrument)
      → P t
      → P (tick v now insts t.world)
      → P (proceed t (tick v now insts))
  proceed_tick P t insts a b = elim (Bool-cases t.raised) [
    | inl up ↦ simp up a
    | inr down ↦ simp down b
  ]

  back : (k i : ℕ) → (k == i) ≡ true → i ≡ k
  back k i h = ground arith

  visit_preserves :
      (P : Option Job → Type 0) (i k : ℕ) (want : Bool)
      → ((rate : ℕ) (w : World)
          → P (w.jobs i)
          → P ((visit_with v now i rate w (some want)).world.jobs i))
      → (rate : ℕ) (w : World) → desired v now i w.rows ≡ some want
      → P (w.jobs i)
      → P ((visit v now k rate w).world.jobs i)
  unfolding visit
  visit_preserves P i k want step rate w d p = elim (Bool-cases (k == i)) [
    | inl same ↦
        subst (λ m. P ((visit v now m rate w).world.jobs i)) (back k i same) (rw d (step rate w p))
    | inr other ↦
        subst P (sym (visit_other v now k rate w (desired v now k w.rows) i (ground arith))) p
  ]

  module _ (P : Option Job → Type 0) (i : ℕ) (want : Bool)
      (step : (rate : ℕ) (w : World)
        → P (w.jobs i)
        → P ((visit_with v now i rate w (some want)).world.jobs i)) where
    visit_some_preserves :
        (id : Option ℕ) (rate : ℕ) (w : World)
        → desired v now i w.rows ≡ some want
        → P (w.jobs i)
        → P ((visit_some v now id rate w).world.jobs i)
    visit_some_preserves none rate w d p = p
    visit_some_preserves (some k) rate w d p = visit_preserves P i k want step rate w d p

  pub desired-visit_some :
      (i : ℕ) (id : Option ℕ) (rate : ℕ) (w : World)
      → desired v now i (visit_some v now id rate w).world.rows ≡ desired v now i w.rows
  unfolding visit
  desired-visit_some i none rate w = refl
  desired-visit_some i (some k) rate w =
      desired_ext i _ _ (visit_rows v now k rate w (desired v now k w.rows) i)

  tick_preserves :
      (P : Option Job → Type 0) (i : ℕ) (want : Bool)
      → ((rate : ℕ) (w : World)
          → P (w.jobs i)
          → P ((visit_with v now i rate w (some want)).world.jobs i))
      → (insts : List Instrument) (w : World) → desired v now i w.rows ≡ some want
      → P (w.jobs i)
      → P ((tick v now insts w).world.jobs i)
  unfolding tick
  tick_preserves P i want step [] w d p = p
  tick_preserves P i want step (inst ∷ insts) w d p =
      let t = visit_some v now inst.id inst.sweep_rate w in
      let q = visit_some_preserves P i want step inst.id inst.sweep_rate w d p in
      proceed_tick (λ t. P (t.world.jobs i)) t insts q
        (tick_preserves P i want step insts t.world
          (desired-visit_some i inst.id inst.sweep_rate w ∙ d) q)

  -- A recording that runs and is still wanted is left alone by a tick, whatever the clock gate
  -- says, whichever other instruments are visited and whether or not an exception ends it:
  -- the job is the same afterwards, and so was not asked to stop.
  pub tick_keeps :
      (insts : List Instrument) (w : World) (i : ℕ)
      → desired v now i w.rows ≡ some true
      → is_live (w.jobs i) ≡ true
      → (tick v now insts w).world.jobs i ≡ w.jobs i
  tick_keeps insts w i d l =
      tick_preserves (λ o. o ≡ w.jobs i) i true
        (λ rate u e. visit_live v now i rate u (ap is_live e ∙ l) ∙ e) insts w d refl

  visit_returns :
      (i rate : ℕ) (w : World) (o : Option Bool)
      → v.prepares i ≡ true
      → v.overview_runs i ≡ true
      → v.stops i ≡ true
      → is_some o ≡ true
      → (visit_with v now i rate w o).raised ≡ false
  visit_returns i rate w none p r s h = ground arith
  visit_returns i rate w (some want) p r s h =
      proceed_raised v now i (act v now i want w) want rate ∙ act_returns v now i want w p r s

abbrev pub has_id : ℕ → Option ℕ → Bool
has_id i none = false
has_id i (some k) = k == i

-- An enabled instrument that the tick visits.
abbrev pub is_listed : ℕ → List Instrument → Bool
is_listed i [] = false
is_listed i (inst ∷ insts) = has_id i inst.id || is_listed i insts

listed_later :
    (i : ℕ) (inst : Instrument) (insts : List Instrument)
    → has_id i inst.id ≡ false
    → is_listed i (inst ∷ insts) ≡ true
    → is_listed i insts ≡ true
listed_later i inst insts h m = ground arith

module _ (v : Env) (now : ℕ) (prepares : (k : ℕ) → v.prepares k ≡ true)
    (runs : (k : ℕ) → v.overview_runs k ≡ true) (stops : (k : ℕ) → v.stops k ≡ true) where
  visit_some_returns :
      (id : Option ℕ) (rate : ℕ) (w : World)
      → ((k : ℕ) → is_some (desired v now k w.rows) ≡ true)
      → (visit_some v now id rate w).raised ≡ false
  unfolding visit
  visit_some_returns none rate w reads = refl
  visit_some_returns (some k) rate w reads =
      visit_returns v now k rate w (desired v now k w.rows) (prepares k) (runs k) (stops k)
        (reads k)

  reads_on :
      (id : Option ℕ) (rate : ℕ) (w : World)
      → ((k : ℕ) → is_some (desired v now k w.rows) ≡ true)
      → (k : ℕ) → is_some (desired v now k (visit_some v now id rate w).world.rows) ≡ true
  reads_on id rate w reads k = ap is_some (desired-visit_some v now k id rate w) ∙ reads k

  tick_returns :
      (insts : List Instrument) (w : World)
      → ((k : ℕ) → is_some (desired v now k w.rows) ≡ true)
      → (tick v now insts w).raised ≡ false
  unfolding tick
  tick_returns [] w reads = refl
  tick_returns (inst ∷ insts) w reads =
      let t = visit_some v now inst.id inst.sweep_rate w in
      simp (visit_some_returns inst.id inst.sweep_rate w reads)
        (tick_returns insts t.world (reads_on inst.id inst.sweep_rate w reads))

  visit_some_settles :
      (i : ℕ) (want : Bool) (id : Option ℕ) (rate : ℕ) (w : World)
      → has_id i id ≡ true
      → desired v now i w.rows ≡ some want
      → is_settled want (gate_ok v) ((visit_some v now id rate w).world.jobs i) ≡ true
  unfolding visit
  visit_some_settles i want none rate w h d = ground arith
  visit_some_settles i want (some k) rate w h d =
      subst (λ m. is_settled want (gate_ok v) ((visit v now m rate w).world.jobs i) ≡ true)
        (back v now k i h)
        (rw d (
          visit_settles v now i rate w want (stops i)
            (visit_returns v now i rate w (some want) (prepares i) (runs i) (stops i) refl)))

  tick_reaches :
      (i : ℕ) (want : Bool) (insts : List Instrument) (w : World)
      → ((k : ℕ) → is_some (desired v now k w.rows) ≡ true)
      → is_listed i insts ≡ true
      → desired v now i w.rows ≡ some want
      → is_settled want (gate_ok v) ((tick v now insts w).world.jobs i) ≡ true
  unfolding tick
  tick_reaches i want [] w reads m d = ground arith
  tick_reaches i want (inst ∷ insts) w reads m d =
      let t = visit_some v now inst.id inst.sweep_rate w in
      let d' = desired-visit_some v now i inst.id inst.sweep_rate w ∙ d in
      simp (visit_some_returns inst.id inst.sweep_rate w reads)
        (elim (Bool-cases (has_id i inst.id)) [
          | inl here ↦
              tick_preserves v now (λ o. is_settled want (gate_ok v) o ≡ true) i want
                (λ rate u. visit_keeps v now i rate want u (stops i)) insts t.world d'
                (visit_some_settles i want inst.id inst.sweep_rate w here d)
          | inr there ↦
              tick_reaches i want insts t.world (reads_on inst.id inst.sweep_rate w reads)
                (listed_later i inst insts there m) d'
        ])

  -- Given that every driver is built, every driver returns from the call that stops it, every
  -- overview sweep returns and every window can be computed, a tick ends without an exception, and then each instrument it lists is settled: one
  -- that is wanted has, with the clock gate open, a recording whose thread runs, and one that is not
  -- wanted has no recording or one that was asked to stop.
  pub tick_settles :
      (insts : List Instrument) (w : World)
      → ((k : ℕ) → is_some (desired v now k w.rows) ≡ true)
      → (i : ℕ) (want : Bool) → is_listed i insts ≡ true
      → desired v now i w.rows ≡ some want
      → ((tick v now insts w).raised ≡ false)
        × (is_settled want (gate_ok v) ((tick v now insts w).world.jobs i) ≡ true)
  tick_settles insts w reads i want m d =
      (tick_returns insts w reads, tick_reaches i want insts w reads m d)

-- ===== src/Services/Scheduler/Restart.antt =====
-- The tick that starts a recording again after a pause.
use e_callisto_ng.Prelude.{
  ℕ, ◌+◌, ◌<◌, ◌≡◌, refl, sym, ap, ◌∙◌, inl, inr, Bool, true, false, ◌&&◌, Bool-cases, Option, none,
  some, List, [], ◌∷◌, ◌++◌, append-nil, append_assoc, put_same, arith,
}
use e_callisto_ng.Window.{expire}
use e_callisto_ng.Services.Recorder.{
  is_recording, job_status, reconcile, recording, register, status, thread_start,
}
use e_callisto_ng.Services.Runtime.{RecorderRuntime, is_late, stall_bound, stamped, upsert, write}
use e_callisto_ng.Services.AutoRecover.{
  AutoRecover, Effect, attempt, consider, consider_row, expired, hook_recover,
}
use e_callisto_ng.Services.Scheduler.{
  Env, Instrument, Turn, World, proceed, act, decide, desired, gate_ok, maybe_overview,
  recover_stalled, start_recording, stop_recording, tick, visit, visit_some, visit_with,
}
use e_callisto_ng.Services.Scheduler.Visit.{is_live, proceed_jobs, proceed_raised}
use e_callisto_ng.Services.Scheduler.Settled.{desired-visit_some, tick_keeps}

-- The effects of the second world are those of the first, and then some.
abbrev Grows : World → World → Type 0
Grows w w' = (more : List Effect) × (w'.effects ≡ w.effects ++ more)

Grows-refl : (w : World) → Grows w w
Grows-refl w = ([], sym (append-nil w.effects))

Grows-trans : (u w x : World) → Grows u w → Grows w x → Grows u x
Grows-trans u w x (a, e) (b, f) = (a ++ b, f ∙ ap (λ es. es ++ b) e ∙ append_assoc u.effects a b)

module _ (v : Env) (now : ℕ) where
  act_effects : (i : ℕ) (want : Bool) (w : World) → (act v now i want w).world.effects ≡ w.effects
  unfolding act decide start_recording stop_recording maybe_overview
  act_effects i want w = ground arith

  recover-Grows :
      (i : ℕ) (want : Bool) (rate : ℕ) (w : World)
      → Grows w (recover_stalled v now i want rate w).world
  unfolding recover_stalled
  recover-Grows i want rate w = elim (Bool-cases (want && gate_ok v)) [
    | inl e ↦ rw e ((consider v.settings i rate (w.rows i) now w.auto).1, refl)
    | inr e ↦ rw e (Grows-refl w)
  ]

  proceed-Grows :
      (w : World) (t : Turn) (k : World → Turn)
      → Grows w t.world
      → ((u : World) → Grows u (k u).world)
      → Grows w (proceed t k).world
  proceed-Grows w t k g h = elim (Bool-cases t.raised) [
    | inl up ↦ simp up g
    | inr down ↦ simp down (Grows-trans w t.world (k t.world).world g (h t.world))
  ]

  visit_with-Grows :
      (i rate : ℕ) (w : World) (o : Option Bool) → Grows w (visit_with v now i rate w o).world
  visit_with-Grows i rate w none = Grows-refl w
  visit_with-Grows i rate w (some want) =
      proceed-Grows w (act v now i want w) (recover_stalled v now i want rate)
        ([], act_effects i want w ∙ sym (append-nil w.effects)) (recover-Grows i want rate)

  visit_some-Grows :
      (id : Option ℕ) (rate : ℕ) (w : World) → Grows w (visit_some v now id rate w).world
  unfolding visit
  visit_some-Grows none rate w = Grows-refl w
  visit_some-Grows (some i) rate w = visit_with-Grows i rate w (desired v now i w.rows)

  tick-Grows : (insts : List Instrument) (w : World) → Grows w (tick v now insts w).world
  unfolding tick
  tick-Grows [] w = Grows-refl w
  tick-Grows (inst ∷ insts) w =
      proceed-Grows w (visit_some v now inst.id inst.sweep_rate w) (tick v now insts)
        (visit_some-Grows inst.id inst.sweep_rate w) (tick-Grows insts)

module _ (v : Env) (now i : ℕ) where
  consider_stale :
      (rate t : ℕ) (r : RecorderRuntime) (a : AutoRecover)
      → v.settings.auto_recover ≡ true
      → 0 < v.settings.auto_recover_budget
      → a.history i ≡ []
      → r.last_frame_at ≡ some t
      → t + stall_bound v.settings.stall_grace rate < now
      → (consider v.settings i rate (some r) now a).1 ≡ hook_recover i now ∷ []
  unfolding consider consider_row attempt expired is_late expire
  consider_stale rate t r a on room fresh last late = ground (
    arith,
    put_same a.history i (expire v.settings.auto_recover_window now (a.history i)),
    ap (expire v.settings.auto_recover_window now) fresh,
  )

  act_restarts :
      (r : RecorderRuntime) (w : World)
      → is_recording (job_status (w.jobs i)).state ≡ false
      → w.rows i ≡ some r
      → v.prepares i ≡ true
      → gate_ok v ≡ true
      → ((act v now i true w).raised ≡ false)
        × (is_live ((act v now i true w).world.jobs i) ≡ true)
        × ((act v now i true w).world.rows i ≡ some (stamped now (record r { state = recording })))
        × ((act v now i true w).world.auto ≡ w.auto)
        × ((act v now i true w).world.effects ≡ w.effects)
  unfolding act decide start_recording status register thread_start write upsert reconcile
  act_restarts r w free row built gate =
      (ground arith, ground arith, ground arith, ground arith, ground arith)

  recover_after :
      (rate t : ℕ) (r : RecorderRuntime) (w : World)
      → w.rows i ≡ some r
      → gate_ok v ≡ true
      → v.settings.auto_recover ≡ true
      → 0 < v.settings.auto_recover_budget
      → w.auto.history i ≡ []
      → r.last_frame_at ≡ some t
      → t + stall_bound v.settings.stall_grace rate < now
      → (recover_stalled v now i true rate w).world.effects ≡ w.effects ++ hook_recover i now ∷ []
  unfolding recover_stalled
  recover_after rate t r w row gate on room fresh last late =
      rw gate (
        rw row
          (ap (λ es. w.effects ++ es) (consider_stale rate t r w.auto on room fresh last late)))

  -- What the visit of the instrument leaves.
  visit_restarts :
      (rate t : ℕ) (r : RecorderRuntime) (w : World)
      → desired v now i w.rows ≡ some true
      → gate_ok v ≡ true
      → v.prepares i ≡ true
      → is_recording (job_status (w.jobs i)).state ≡ false
      → w.rows i ≡ some r
      → r.last_frame_at ≡ some t
      → t + stall_bound v.settings.stall_grace rate < now
      → v.settings.auto_recover ≡ true
      → 0 < v.settings.auto_recover_budget
      → w.auto.history i ≡ []
      → ((visit v now i rate w).raised ≡ false)
        × (is_live ((visit v now i rate w).world.jobs i) ≡ true)
        × ((visit v now i rate w).world.effects ≡ w.effects ++ hook_recover i now ∷ [])
  unfolding visit
  visit_restarts rate t r w want gate built free row last late on room fresh =
      let (returned, live, row', auto, effects) = act_restarts r w free row built gate in
      rw want (
        proceed_raised v now i (act v now i true w) true rate ∙ returned,
        ap (λ jobs. is_live (jobs i)) (proceed_jobs v now i (act v now i true w) true rate) ∙ live,
        simp returned (
              recover_after rate t _ (act v now i true w).world row' gate on room
                (ap (λ a. a.history i) auto ∙ fresh) last late)
            ∙ ap (λ es. es ++ hook_recover i now ∷ []) effects,
      )

  -- With automated recovery on and its history for the instrument empty, a tick whose first enabled
  -- instrument is this one, that starts its wanted recording again, also runs the host's recovery
  -- hook on it, as the first of its effects, whenever the last frame of the recording before is
  -- older than the stall bound: the start leaves the old heartbeat in the row. Whatever the
  -- instruments after it are, the recording runs at the end of the tick.
  pub tick-restart_recovers :
      (inst : Instrument) (insts : List Instrument) (t : ℕ) (r : RecorderRuntime) (w : World)
      → inst.id ≡ some i
      → desired v now i w.rows ≡ some true
      → gate_ok v ≡ true
      → v.prepares i ≡ true
      → is_recording (job_status (w.jobs i)).state ≡ false
      → w.rows i ≡ some r
      → r.last_frame_at ≡ some t
      → t + stall_bound v.settings.stall_grace inst.sweep_rate < now
      → v.settings.auto_recover ≡ true
      → 0 < v.settings.auto_recover_budget
      → w.auto.history i ≡ []
      → (is_live ((tick v now (inst ∷ insts) w).world.jobs i) ≡ true)
        × ((more : List Effect) × ((tick v now (inst ∷ insts) w).world.effects
              ≡ w.effects ++ hook_recover i now ∷ more))
  unfolding tick
  tick-restart_recovers inst insts t r w id want gate built free row last late on room fresh =
      let (returned, live, effects) =
        visit_restarts inst.sweep_rate t r w want gate built free row last late on room fresh in
      let u = (visit v now i inst.sweep_rate w).world in
      let (more, grown) = tick-Grows v now insts u in
      simp (id, returned)
        (
          ap is_live (tick_keeps v now insts u i (still_wanted inst.sweep_rate w ∙ want) live)
              ∙ live,
          (
            more,
            grown
                ∙ ap (λ es. es ++ more) effects
                ∙ append_assoc w.effects (hook_recover i now ∷ []) more,
          ),
        )
    where
      still_wanted :
          (rate : ℕ) (w : World)
          → desired v now i (visit v now i rate w).world.rows ≡ desired v now i w.rows
      still_wanted rate w = desired-visit_some v now i (some i) rate w

-- ===== src/Services/Scheduler/Visit.antt =====
-- What one visit of the scheduler leaves of every recording.
use e_callisto_ng.Prelude.{
  ℕ, ◌≡◌, ◌≢◌, refl, sym, ap, ◌∙◌, subst, inl, inr, Bool, true, false, not, ◌&&◌, ◌||◌, Bool-cases,
  Option, none, some, ◌==◌, put, put_same, put_other, arith,
}
use e_callisto_ng.Services.Recorder.{
  Job, RecorderState, asked, recording, fresh_job, is_alive, is_recording, job_status, reconcile,
  reconciled, register, status, stop, thread_start,
}
use e_callisto_ng.Services.Runtime.{Table, get_desired, upsert, write}
use e_callisto_ng.Services.Windows.{Schedule}
use e_callisto_ng.Services.Scheduler.{
  Env, Turn, World, act, active_schedule, decide, gate_ok, maybe_overview, proceed, recover_stalled,
  start_recording, stop_recording, visit_with,
}

-- A job that records with a running thread.
abbrev pub is_live : Option Job → Bool
is_live none = false
is_live (some j) = is_recording j.status.state && is_alive j.thread

-- No recording, or one that was asked to stop.
abbrev pub is_halted : Option Job → Bool
is_halted none = true
is_halted (some j) = not (is_recording j.status.state) || j.stop_asked

put_id : (f : ℕ → Option Job) (i k : ℕ) (a : Option Job) → a ≡ f i → put f i a k ≡ f k
put_id f i k a h = elim (Bool-cases (i == k)) [
  | inl same ↦ rw same (h ∙ ap f (ground arith))
  | inr other ↦ rw other refl
]

reconciled_live : (o : Option Job) → is_live o ≡ true → reconciled o ≡ o
unfolding reconcile
reconciled_live none h = refl
reconciled_live (some j) h = ground arith

reconciled_idle : (o : Option Job) → is_recording (job_status o).state ≡ false → reconciled o ≡ o
unfolding reconcile
reconciled_idle none h = refl
reconciled_idle (some j) h = rw h refl

live-reconciled :
    (o : Option Job)
    → is_recording (job_status (reconciled o)).state ≡ true
    → is_live (reconciled o) ≡ true
unfolding reconcile
live-reconciled none h = h
live-reconciled (some j) h = ground arith

live-is_recording :
    (o : Option Job) → is_live o ≡ true → is_recording (job_status (reconciled o)).state ≡ true
unfolding reconcile
live-is_recording none h = ground arith
live-is_recording (some j) h = ground arith

asked-is_halted : (o : Option Job) → is_halted (asked o) ≡ true
asked-is_halted none = refl
asked-is_halted (some j) = ground arith

free-is_halted : (o : Option Job) → is_recording (job_status o).state ≡ false → is_halted o ≡ true
free-is_halted none h = refl
free-is_halted (some j) h = ground arith

reconciled-reconciled : (o : Option Job) → reconciled (reconciled o) ≡ reconciled o
unfolding reconcile
reconciled-reconciled none = refl
reconciled-reconciled (some j) = ground arith

pub get_desired-write :
    (i k now : ℕ) (st : RecorderState) (file : Option ℕ) (rows : Table)
    → get_desired k (write i st file now rows) ≡ get_desired k rows
unfolding write upsert
get_desired-write i k now st file rows = elim (Bool-cases (i == k)) [
  | inl same ↦ rw (same, get_desired) (ap (λ m. get_desired m rows) (ground arith))
  | inr other ↦ rw (other, get_desired) refl
]

-- The world after the status of one recording was asked for.
abbrev checked : ℕ → World → World
checked i w = record w { jobs = put w.jobs i (reconciled (w.jobs i)) }

checked-reconciled : (i : ℕ) (w : World) → reconciled ((checked i w).jobs i) ≡ (checked i w).jobs i
checked-reconciled i w =
    rw (put_same w.jobs i (reconciled (w.jobs i))) (reconciled-reconciled (w.jobs i))

module _ (v : Env) (now i : ℕ) where
  maybe_overview_jobs :
      (s : Option Schedule) (w : World) (k : ℕ)
      → reconciled (w.jobs i) ≡ w.jobs i
      → (maybe_overview v now i s w).world.jobs k ≡ w.jobs k
  unfolding maybe_overview status
  maybe_overview_jobs none w k h = refl
  maybe_overview_jobs (some s) w k h = ground (arith, put_id w.jobs i k (reconciled (w.jobs i)) h)

  start_recording_other :
      (w : World) (k : ℕ) → i ≢ k → (start_recording v now i w).world.jobs k ≡ w.jobs k
  unfolding start_recording register thread_start
  start_recording_other w k h = ground (arith, put_other w.jobs i k (some fresh_job) h)

  start_recording_live :
      (w : World)
      → (start_recording v now i w).raised ≡ false
      → is_live ((start_recording v now i w).world.jobs i) ≡ true
  unfolding start_recording register thread_start
  start_recording_live w h = ground arith

  decide_other :
      (want busy : Bool) (w : World) (k : ℕ)
      → reconciled (w.jobs i) ≡ w.jobs i
      → i ≢ k
      → (decide v now i want busy w).world.jobs k ≡ w.jobs k
  unfolding decide stop_recording stop
  decide_other want busy w k r h = ground (
    arith,
    start_recording_other w k h,
    maybe_overview_jobs (active_schedule v.schedules i) w k r,
    put_other w.jobs i k (asked (w.jobs i)) h,
  )

  decide_live :
      (w : World) (k : ℕ)
      → reconciled (w.jobs i) ≡ w.jobs i
      → (decide v now i true true w).world.jobs k ≡ w.jobs k
  unfolding decide
  decide_live w k r = ground (arith, maybe_overview_jobs (active_schedule v.schedules i) w k r)

  decide_starts :
      (w : World)
      → gate_ok v ≡ true
      → (decide v now i true false w).raised ≡ false
      → is_live ((decide v now i true false w).world.jobs i) ≡ true
  unfolding decide
  decide_starts w g h = ground (arith, start_recording_live w)

  decide_halts :
      (w : World)
      → v.stops i ≡ true
      → reconciled (w.jobs i) ≡ w.jobs i
      → is_halted
          ((decide v now i false (is_recording (job_status (w.jobs i)).state) w).world.jobs i)
        ≡ true
  unfolding decide stop_recording stop
  decide_halts w s r = elim (Bool-cases (is_recording (job_status (w.jobs i)).state)) [
    | inl busy ↦
        rw (busy, s) (rw (put_same w.jobs i (asked (w.jobs i))) (asked-is_halted (w.jobs i)))
    | inr free ↦ rw free (
        rw (maybe_overview_jobs (active_schedule v.schedules i) w i r)
          (free-is_halted (w.jobs i) free))
  ]

  act_other :
      (want : Bool) (w : World) (k : ℕ) → i ≢ k → (act v now i want w).world.jobs k ≡ w.jobs k
  unfolding act status
  act_other want w k h =
      decide_other want _ (checked i w) k (checked-reconciled i w) h
      ∙ put_other w.jobs i k (reconciled (w.jobs i)) h

  act_live : (w : World) → is_live (w.jobs i) ≡ true → (act v now i true w).world.jobs i ≡ w.jobs i
  unfolding act status
  act_live w l = rw (live-is_recording (w.jobs i) l) (
      decide_live (checked i w) i (checked-reconciled i w)
      ∙ put_same w.jobs i (reconciled (w.jobs i))
      ∙ reconciled_live (w.jobs i) l)

  act_starts_at :
      (busy : Bool) (w : World)
      → reconciled (w.jobs i) ≡ w.jobs i
      → gate_ok v ≡ true
      → (busy ≡ true → is_live (w.jobs i) ≡ true)
      → (decide v now i true busy w).raised ≡ false
      → is_live ((decide v now i true busy w).world.jobs i) ≡ true
  act_starts_at true w r g l h = ap is_live (decide_live w i r) ∙ l refl
  act_starts_at false w r g l h = decide_starts w g h

  pub act_starts :
      (w : World)
      → gate_ok v ≡ true
      → (act v now i true w).raised ≡ false
      → is_live ((act v now i true w).world.jobs i) ≡ true
  unfolding act status
  act_starts w g h =
      act_starts_at (is_recording (job_status (reconciled (w.jobs i))).state) (checked i w)
        (checked-reconciled i w) g
        (λ busy.
          ap is_live (put_same w.jobs i (reconciled (w.jobs i))) ∙ live-reconciled (w.jobs i) busy)
        h

  pub act_halts :
      (w : World) → v.stops i ≡ true → is_halted ((act v now i false w).world.jobs i) ≡ true
  unfolding act status
  act_halts w s =
      subst
        (λ o.
          is_halted
            ((decide v now i false (is_recording (job_status o).state) (checked i w)).world.jobs i)
          ≡ true)
        (put_same w.jobs i (reconciled (w.jobs i)))
        (decide_halts (checked i w) s (checked-reconciled i w))

  recover_stalled_jobs :
      (want : Bool) (rate : ℕ) (w : World)
      → (recover_stalled v now i want rate w).world.jobs ≡ w.jobs
  unfolding recover_stalled
  recover_stalled_jobs want rate w = ground arith

  get_desired-act :
      (want : Bool) (w : World) (k : ℕ)
      → get_desired k (act v now i want w).world.rows ≡ get_desired k w.rows
  unfolding act decide start_recording stop_recording maybe_overview
  get_desired-act want w k = ground (arith, get_desired-write i k now recording none w.rows)

  pub proceed_jobs :
      (t : Turn) (want : Bool) (rate : ℕ)
      → (proceed t (recover_stalled v now i want rate)).world.jobs ≡ t.world.jobs
  proceed_jobs t want rate = ground (arith, recover_stalled_jobs want rate t.world)

  proceed_rows :
      (t : Turn) (want : Bool) (rate : ℕ)
      → (proceed t (recover_stalled v now i want rate)).world.rows ≡ t.world.rows
  unfolding recover_stalled
  proceed_rows t want rate = ground arith

  pub proceed_raised :
      (t : Turn) (want : Bool) (rate : ℕ)
      → (proceed t (recover_stalled v now i want rate)).raised ≡ t.raised
  unfolding recover_stalled
  proceed_raised t want rate = ground arith

  pub visit_other :
      (rate : ℕ) (w : World) (o : Option Bool) (k : ℕ)
      → i ≢ k
      → (visit_with v now i rate w o).world.jobs k ≡ w.jobs k
  visit_other rate w none k h = refl
  visit_other rate w (some want) k h =
      ap (λ jobs. jobs k) (proceed_jobs (act v now i want w) want rate) ∙ act_other want w k h

  pub visit_rows :
      (rate : ℕ) (w : World) (o : Option Bool) (k : ℕ)
      → get_desired k (visit_with v now i rate w o).world.rows ≡ get_desired k w.rows
  visit_rows rate w none k = refl
  visit_rows rate w (some want) k =
      ap (λ rows. get_desired k rows) (proceed_rows (act v now i want w) want rate)
      ∙ get_desired-act want w k

  pub visit_live :
      (rate : ℕ) (w : World)
      → is_live (w.jobs i) ≡ true
      → (visit_with v now i rate w (some true)).world.jobs i ≡ w.jobs i
  visit_live rate w l =
      ap (λ jobs. jobs i) (proceed_jobs (act v now i true w) true rate) ∙ act_live w l

  decide_returns :
      (want busy : Bool) (w : World)
      → busy ≡ is_recording (job_status (w.jobs i)).state
      → v.prepares i ≡ true
      → v.overview_runs i ≡ true
      → v.stops i ≡ true
      → (decide v now i want busy w).raised ≡ false
  unfolding decide start_recording stop_recording maybe_overview status register
  decide_returns want busy w b p o s = ground arith

  pub act_returns :
      (want : Bool) (w : World)
      → v.prepares i ≡ true
      → v.overview_runs i ≡ true
      → v.stops i ≡ true
      → (act v now i want w).raised ≡ false
  unfolding act status
  act_returns want w p o s =
      decide_returns want _ (checked i w)
        (ap (λ j. is_recording (job_status j).state)
          (sym (put_same w.jobs i (reconciled (w.jobs i)))))
        p o s

-- ===== src/Services/Recorder/Race.antt =====
-- A status that is asked for in the middle of a start.
use e_callisto_ng.Prelude.{ℕ, ◌≡◌, refl, ap, ◌∙◌, true, false, some, is_some, put_same, arith}
use e_callisto_ng.Services.Recorder.{
  Job, Jobs, is_alive, alive, failed, fresh_job, is_recording, job_status, reconcile, reconciled,
  register, status, thread_start, with_thread,
}

-- The job that such a status leaves, once its thread runs.
abbrev raced_job : Job
unfolding reconcile
raced_job = record (reconcile fresh_job) { thread = alive }

module _ (i : ℕ) where
  register_fresh : (jobs first : Jobs) → register i jobs ≡ some first → first i ≡ some fresh_job
  unfolding register
  register_fresh jobs first h = ground (arith, put_same jobs i (some fresh_job))

  register_open :
      (jobs : Jobs)
      → is_recording (job_status (jobs i)).state ≡ false
      → is_some (register i jobs) ≡ true
  unfolding register
  register_open jobs free = rw free refl

  raced :
      (first : Jobs)
      → first i ≡ some fresh_job
      → thread_start i (status i first).1 i ≡ some raced_job
  unfolding thread_start status reconcile raced_job
  raced first e =
      put_same (status i first).1 i (with_thread alive ((status i first).1 i))
      ∙ ap (with_thread alive) (put_same first i (reconciled (first i)))
      ∙ ap (λ o. with_thread alive (reconciled o)) e

  -- A status that another thread asks for after a start has registered its job and before it starts
  -- the job's thread leaves the job in the error state with its thread running; and a second start
  -- of the same instrument is then accepted.
  start_raced :
      (jobs first : Jobs)
      → register i jobs ≡ some first
      → let later = thread_start i (status i first).1 in
        ((j : Job) × (later i ≡ some j) × (is_alive j.thread ≡ true) × (j.status.state ≡ failed))
        × (is_some (register i later) ≡ true)
  unfolding register raced_job reconcile
  start_raced jobs first h =
      let e = raced first (register_fresh jobs first h) in
      (
        (raced_job, e, refl, refl),
        register_open (thread_start i (status i first).1)
            (ap (λ o. is_recording (job_status o).state) e),
      )

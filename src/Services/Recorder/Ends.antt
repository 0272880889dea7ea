-- ===== src/Services/Recorder/Ends.antt =====
-- What the end of a recording's thread leaves in the registry and in the table.
use e_callisto_ng.Prelude.{
  ℕ, ◌≡◌, refl, ap, ◌∙◌, Bool, true, false, not, Option, none, some, [], ◌∷◌, put_same,
}
use e_callisto_ng.Services.Recorder.{
  Job, Jobs, RecorderState, ended, failed, finish, idle, is_recording, job_status, recording,
  settled, with_thread,
}
use e_callisto_ng.Services.Recorder.Run.{
  End, busy, end_error, end_path, end_state, fatal, finished, raised, run_end,
}
use e_callisto_ng.Services.Runtime.{RecorderRuntime, Table, upsert, write}

abbrev pub same_state : RecorderState → RecorderState → Bool
same_state idle idle = true
same_state recording recording = true
same_state failed failed = true
same_state _ _ = false

-- An exception without a text.
abbrev pub is_silent : End → Bool
is_silent (raised []) = true
is_silent _ = false

abbrev pub row_state : Option RecorderRuntime → RecorderState
row_state none = idle
row_state (some r) = r.state

run_end-job :
    (i : ℕ) (e : End) (now : ℕ) (jobs : Jobs) (rows : Table) (j : Job)
    → jobs i ≡ some j
    → (run_end i e now (jobs, rows)).0 i
      ≡ with_thread ended (settled (end_path e) (end_error e) (some j))
unfolding run_end finish
run_end-job i e now jobs rows j h =
    put_same (finish i (end_path e) (end_error e) jobs) i
      (with_thread ended (finish i (end_path e) (end_error e) jobs i))
    ∙ ap (with_thread ended) (
        put_same jobs i (settled (end_path e) (end_error e) (jobs i))
        ∙ ap (settled (end_path e) (end_error e)) h)

run_end-row :
    (i : ℕ) (e : End) (now : ℕ) (jobs : Jobs) (rows : Table)
    → row_state ((run_end i e now (jobs, rows)).1 i) ≡ end_state e
unfolding run_end write upsert
run_end-row i e now jobs rows = simp put_same (refl)

settled_state :
    (e : End) (j : Job)
    → same_state
        (job_status (with_thread ended (settled (end_path e) (end_error e) (some j)))).state
        (end_state e)
      ≡ not (is_silent e)
settled_state (finished p) j = refl
settled_state busy j = refl
settled_state (fatal t) j = refl
settled_state (raised []) j = refl
settled_state (raised (c ∷ cs)) j = refl

settled_idle :
    (e : End) (j : Job)
    → is_recording
        (job_status (with_thread ended (settled (end_path e) (end_error e) (some j)))).state
      ≡ false
settled_idle (finished p) j = refl
settled_idle busy j = refl
settled_idle (fatal t) j = refl
settled_idle (raised []) j = refl
settled_idle (raised (c ∷ cs)) j = refl

-- However a recording's thread ends, its job no longer claims to record, and the registry and the
-- table agree on the state, except when an exception without a text ended it: then the registry
-- says idle and the table error.
run_end_agrees :
    (i : ℕ) (e : End) (now : ℕ) (jobs : Jobs) (rows : Table) (j : Job)
    → jobs i ≡ some j
    → let (jobs', rows') = run_end i e now (jobs, rows) in
      (is_recording (job_status (jobs' i)).state ≡ false)
      × (same_state (job_status (jobs' i)).state (row_state (rows' i)) ≡ not (is_silent e))
run_end_agrees i e now jobs rows j h =
    rw (run_end-job i e now jobs rows j h)
      (rw (run_end-row i e now jobs rows) (settled_idle e j, settled_state e j))

-- ===== src/Services/Diagnostics/Healthy.antt =====
-- What an OK of src/ecallisto_ng/services/diagnostics.py rules out.
use e_callisto_ng.Prelude.{
  ℕ, ◌≡◌, refl, sym, ap, ◌∙◌, Bool, true, false, not, ◌&&◌, Option, none, some, List, [], ◌∷◌, ◌++◌,
  all, if◌then◌else◌, ◌==◌, arith,
}
use e_callisto_ng.Services.Recorder.{RecorderState, failed, idle, recording}
use e_callisto_ng.Services.Runtime.{RecorderRuntime, is_stalled}
use e_callisto_ng.Services.Diagnostics.{
  Check, Host, Instrument, Process, Station, beat_level, check_processes, check_recorder_liveness,
  check_serial_ports, count_of, find_instrument, has_issues, healthy, is_acquire, is_web,
  processes_level, procs, rate_of, row_check, wanted_daemons, warn,
}
use e_callisto_ng.Services.Diagnostics.Report.{
  Report, check_clock, check_disk, check_services, report_of, run_self_check,
}
use e_callisto_ng.Services.Diagnostics.Verdict.{
  all_healthy, all_healthy-append, is_healthy, is_healthy-worst, status_or,
}

abbrev by_state : RecorderState → Bool → Bool
by_state failed stalled = false
by_state recording stalled = not stalled
by_state idle stalled = true

-- The last run did not fail, and a recording is not stalled.
abbrev pub runs_well : Host → List Instrument → ℕ × RecorderRuntime → Bool
runs_well h insts (i, r) =
    by_state r.state (is_stalled h.stall_grace (rate_of (find_instrument i insts)) r h.now)

-- One process of the web application, and as many acquisition daemons as are wanted.
abbrev pub is_populated : ℕ → Option (List Process) → Bool
is_populated wanted none = false
is_populated wanted (some ps) =
    count_of is_web (procs ps) == 1 && count_of is_acquire (procs ps) == wanted

module _ (h : Host) where
  processes_healthy :
      is_healthy (check_processes h).status ≡ true
      → is_populated (wanted_daemons h) h.processes ≡ true
  unfolding check_processes
  processes_healthy = go h.processes h.run_loops_in_web
    where
      counts :
          (web acquire : ℕ) (loops : Bool)
          → is_healthy (if has_issues web acquire (if loops then 0 else 1) then warn else healthy)
            ≡ true
          → (web == 1 && acquire == (if loops then 0 else 1)) ≡ true
      counts web acquire loops e = ground (arith, e)

      go :
          (o : Option (List Process)) (loops : Bool)
          → is_healthy (processes_level o (if loops then 0 else 1)) ≡ true
          → is_populated (if loops then 0 else 1) o ≡ true
      go none loops e = cc
      go (some ps) loops e =
          counts (count_of is_web (procs ps)) (count_of is_acquire (procs ps)) loops e

  recorders_healthy :
      (insts : List Instrument) (rows : List (ℕ × RecorderRuntime))
      → all_healthy (check_recorder_liveness h insts rows) ≡ true
      → all (runs_well h insts) rows ≡ true
  recorders_healthy insts [] e = refl
  recorders_healthy insts ((i, r) ∷ rows) e =
      go r.state (check_recorder_liveness h insts rows) (recorders_healthy insts rows) e
    where
      by_bool :
          (b : Bool) (rest : List Check)
          → (all_healthy rest ≡ true → all (runs_well h insts) rows ≡ true)
          → (is_healthy (if b then warn else beat_level h (find_instrument i insts) r.last_frame_at)
              && all_healthy rest)
            ≡ true
          → (not b && all (runs_well h insts) rows) ≡ true
      by_bool true rest rec q = cc
      by_bool false rest rec q = rec (ground (arith, q))

      go :
          (state : RecorderState) (rest : List Check)
          → (all_healthy rest ≡ true → all (runs_well h insts) rows ≡ true)
          → all_healthy (row_check h (find_instrument i insts) i r state rest) ≡ true
          → (by_state state (is_stalled h.stall_grace (rate_of (find_instrument i insts)) r h.now)
              && all (runs_well h insts) rows)
            ≡ true
      go idle rest rec q = rec q
      go failed rest rec q = cc
      go recording rest rec q =
          by_bool (is_stalled h.stall_grace (rate_of (find_instrument i insts)) r h.now) rest rec q

module _ (h : Host) (s : Station) where
  overall_healthy :
      (services : List Check)
      → is_healthy (status_or (report_of h s (some services))) ≡ true
      → (is_populated (wanted_daemons h) h.processes ≡ true)
        × (all (runs_well h s.instruments) s.rows ≡ true)
  overall_healthy services e =
      let ports = check_serial_ports h s.instruments in
      let recorders = check_recorder_liveness h s.instruments s.rows in
      let last = check_clock h ∷ check_disk h ∷ [] in
      let whole =
        is_healthy-worst healthy (check_processes h ∷ ports ++ recorders ++ services ++ last) in
      let each =
        ap (λ b. is_healthy (check_processes h).status && b)
          (all_healthy-append (ports ++ recorders ++ services) last
            ∙ ap (λ b. b && all_healthy last)
                (all_healthy-append (ports ++ recorders) services
                  ∙ ap (λ b. b && all_healthy services) (all_healthy-append ports recorders))) in
      let (first, second) =
        parts (is_healthy (check_processes h).status) (all_healthy ports) (all_healthy recorders)
          (all_healthy services) (all_healthy last) (sym (whole ∙ each) ∙ e) in
      (processes_healthy h first, recorders_healthy h s.instruments s.rows second)
    where
      parts : (a b c d f : Bool) → (a && (((b && c) && d) && f)) ≡ true → (a ≡ true) × (c ≡ true)
      parts a b c d f q = (ground (arith, q), ground (arith, q))

  -- A report says OK only if the processes of the host are listed with exactly one of the web
  -- application and as many acquisition daemons as are wanted, no instrument's last run ended in
  -- an error, and no recording is stalled.
  pub run_self_check_healthy :
      (r : Report)
      → run_self_check h s ≡ some r
      → is_healthy r.status ≡ true
      → (is_populated (wanted_daemons h) h.processes ≡ true)
        × (all (runs_well h s.instruments) s.rows ≡ true)
  unfolding run_self_check
  run_self_check_healthy r e = go (check_services h) e
    where
      go :
          (o : Option (List Check))
          → report_of h s o ≡ some r
          → is_healthy r.status ≡ true
          → (is_populated (wanted_daemons h) h.processes ≡ true)
            × (all (runs_well h s.instruments) s.rows ≡ true)
      go none p q = cc
      go (some services) p q = overall_healthy services (ap (λ o. is_healthy (status_or o)) p ∙ q)

-- ===== src/Services/Diagnostics/Verdict.antt =====
-- What the overall status of src/ecallisto_ng/services/diagnostics.py says of the host.
use e_callisto_ng.Prelude.Lines.{lines_after}
use e_callisto_ng.Prelude.Int.{ℤ}
use e_callisto_ng.Prelude.{
  ℕ, ◌≡◌, refl, sym, ap, ap₂, ◌∙◌, Bool, true, false, not, ◌&&◌, ◌||◌, Bool-cases, inl, inr, Option,
  none, some, List, [], ◌∷◌, ◌++◌, length, ltb, if◌then◌else◌, arith,
}
use e_callisto_ng.Services.Recorder.{RecorderState, failed, idle, recording}
use e_callisto_ng.Services.Runtime.{RecorderRuntime, is_stalled}
use e_callisto_ng.Services.Diagnostics.{
  age_level, newest_data_age, Check, Host, Instrument, Level, Process, Station, beat_level,
  check_processes, check_recorder_liveness, check_serial_ports, device_holders, fail,
  find_instrument, healthy, holders_level, is_serial, port_level, processes_level, rank, rate_of,
  recording_level, row_check, wanted_daemons, warn,
}
use e_callisto_ng.Services.Diagnostics.Report.{
  Report, is_crash_looping, check_clock, check_disk, check_services, check_units, clock_level,
  disk_level, is_active, report_of, restarts_of, run_self_check, shown_level, unit_level, units,
  with_unit, worst,
}

abbrev pub is_fail : Level → Bool
is_fail fail = true
is_fail _ = false

abbrev pub is_healthy : Level → Bool
is_healthy healthy = true
is_healthy _ = false

abbrev pub any_fail : List Check → Bool
any_fail [] = false
any_fail (c ∷ cs) = is_fail c.status || any_fail cs

abbrev pub all_healthy : List Check → Bool
all_healthy [] = true
all_healthy (c ∷ cs) = is_healthy c.status && all_healthy cs

any_fail-append : (cs ds : List Check) → any_fail (cs ++ ds) ≡ (any_fail cs || any_fail ds)
any_fail-append [] ds = refl
any_fail-append (c ∷ cs) ds = let rest = any_fail-append cs ds in ground arith

pub all_healthy-append :
    (cs ds : List Check) → all_healthy (cs ++ ds) ≡ (all_healthy cs && all_healthy ds)
all_healthy-append [] ds = refl
all_healthy-append (c ∷ cs) ds = let rest = all_healthy-append cs ds in ground arith

is_fail-worst : (l : Level) (cs : List Check) → is_fail (worst l cs) ≡ (is_fail l || any_fail cs)
is_fail-worst l [] = ground arith
is_fail-worst l (c ∷ cs) =
    is_fail-worst (if ltb (rank l) (rank c.status) then c.status else l) cs ∙ step l c.status
  where
    step :
        (l m : Level)
        → (is_fail (if ltb (rank l) (rank m) then m else l) || any_fail cs)
          ≡ (is_fail l || (is_fail m || any_fail cs))
    step healthy healthy = refl
    step healthy warn = refl
    step healthy fail = refl
    step warn healthy = refl
    step warn warn = refl
    step warn fail = refl
    step fail healthy = refl
    step fail warn = refl
    step fail fail = refl

pub is_healthy-worst :
    (l : Level) (cs : List Check) → is_healthy (worst l cs) ≡ (is_healthy l && all_healthy cs)
is_healthy-worst l [] = ground arith
is_healthy-worst l (c ∷ cs) =
    is_healthy-worst (if ltb (rank l) (rank c.status) then c.status else l) cs ∙ step l c.status
  where
    step :
        (l m : Level)
        → (is_healthy (if ltb (rank l) (rank m) then m else l) && all_healthy cs)
          ≡ (is_healthy l && (is_healthy m && all_healthy cs))
    step healthy healthy = refl
    step healthy warn = refl
    step healthy fail = refl
    step warn healthy = refl
    step warn warn = refl
    step warn fail = refl
    step fail healthy = refl
    step fail warn = refl
    step fail fail = refl

abbrev level_or : Option Level → Level
level_or none = healthy
level_or (some level) = level

abbrev checks_or : Option (List Check) → List Check
checks_or none = []
checks_or (some cs) = cs

-- More than one process has the device of a serial receiver open.
abbrev is_shared : List ℕ → Option (List Process) → Bool
is_shared device none = false
is_shared device (some ps) = ltb 1 (length (device_holders device ps))

abbrev pub is_contended : Host → Instrument → Bool
is_contended h inst =
    is_serial inst && (h.exists inst.address && is_shared inst.address h.processes)

abbrev pub any_contended : Host → List Instrument → Bool
any_contended h [] = false
any_contended h (inst ∷ insts) = is_contended h inst || any_contended h insts

-- A unit that systemd manages here is not active.
abbrev pub is_down : Option (List ℕ) → Bool
is_down none = false
is_down (some stdout) = not (is_active (lines_after false stdout))

abbrev pub any_down : Host → List (List ℕ) → Bool
any_down h [] = false
any_down h (unit ∷ others) = is_down (h.show unit) || any_down h others

-- The data directory cannot be used, or has less than 10⁹ bytes left.
abbrev pub is_short : Option (ℕ × ℕ) → Bool
is_short none = true
is_short (some (free, total)) = ltb free 1_000_000_000

is_fail-if :
    (b : Bool) (l m : Level) → is_fail (if b then l else m) ≡ (if b then is_fail l else is_fail m)
is_fail-if true l m = refl
is_fail-if false l m = refl

module _ (h : Host) where
  processes_fail : is_fail (check_processes h).status ≡ false
  unfolding check_processes
  processes_fail = go h.processes
    where
      go : (o : Option (List Process)) → is_fail (processes_level o (wanted_daemons h)) ≡ false
      go none = refl
      go (some ps) = ground arith

  port_fail :
      (inst : Instrument)
      → is_fail (port_level h inst.address)
        ≡ (h.exists inst.address && is_shared inst.address h.processes)
  port_fail inst = go (h.exists inst.address) h.processes
    where
      go :
          (b : Bool) (o : Option (List Process))
          → is_fail (if b then holders_level inst.address o else warn)
            ≡ (b && is_shared inst.address o)
      go false o = refl
      go true none = refl
      go true (some ps) = ground arith

  serial_ports_fail :
      (insts : List Instrument) → any_fail (check_serial_ports h insts) ≡ any_contended h insts
  serial_ports_fail [] = refl
  serial_ports_fail (inst ∷ insts) =
      let rest = serial_ports_fail insts in
      let port = port_fail inst in
      elim (Bool-cases (is_serial inst)) [
        | inl e ↦ simp (e, port, rest) refl
        | inr e ↦ simp (e, rest) refl
      ]

  recording_fail :
      (inst : Option Instrument) (r : RecorderRuntime) → is_fail (recording_level h inst r) ≡ false
  recording_fail inst r = go (is_stalled h.stall_grace (rate_of inst) r h.now) inst r.last_frame_at
    where
      by_age : (age : Option ℕ) (period : ℕ) → is_fail (age_level age period) ≡ false
      by_age none period = refl
      by_age (some age) period = ground arith

      go :
          (b : Bool) (inst : Option Instrument) (beat : Option ℕ)
          → is_fail (if b then warn else beat_level h inst beat) ≡ false
      go true inst beat = refl
      go false inst (some t) = refl
      go false none none = refl
      go false (some inst) none = by_age (newest_data_age h inst.name) inst.file_seconds

  recorders_fail :
      (insts : List Instrument) (rows : List (ℕ × RecorderRuntime))
      → any_fail (check_recorder_liveness h insts rows) ≡ false
  recorders_fail insts [] = refl
  recorders_fail insts ((i, r) ∷ rows) =
      go r.state (check_recorder_liveness h insts rows) (recorders_fail insts rows)
    where
      go :
          (state : RecorderState) (rest : List Check)
          → any_fail rest ≡ false
          → any_fail (row_check h (find_instrument i insts) i r state rest) ≡ false
      go idle rest q = q
      go failed rest q = q
      go recording rest q = rw (recording_fail (find_instrument i insts) r) q

  shown_fail :
      (out : Option (List ℕ)) (level : Level)
      → shown_level out ≡ some level
      → is_fail level ≡ is_down out
  shown_fail none level e = ap (λ o. is_fail (level_or o)) (sym e)
  shown_fail (some stdout) level e =
      go (is_active (lines_after false stdout)) (restarts_of (lines_after false stdout)) e
    where
      go :
          (active : Bool) (restarts : Option ℤ)
          → unit_level active restarts ≡ some level
          → is_fail level ≡ not active
      go active none e = cc
      go false (some n) e = ap (λ o. is_fail (level_or o)) (sym e)
      go true (some n) e = ap (λ o. is_fail (level_or o)) (sym e) ∙ quiet (is_crash_looping n)
        where
          quiet : (b : Bool) → is_fail (level_or (if b then some warn else some healthy)) ≡ false
          quiet true = refl
          quiet false = refl

  units_fail :
      (us : List (List ℕ)) (cs : List Check)
      → check_units h us ≡ some cs
      → any_fail cs ≡ any_down h us
  units_fail [] cs e = ap (λ o. any_fail (checks_or o)) (sym e)
  units_fail (unit ∷ us) cs e =
      go (units_fail us) (shown_level (h.show unit)) (check_units h us) refl refl e
    where
      go :
          ((others : List Check) → check_units h us ≡ some others → any_fail others ≡ any_down h us)
          → (o : Option Level) (rest : Option (List Check)) → shown_level (h.show unit) ≡ o
          → check_units h us ≡ rest
          → with_unit unit o rest ≡ some cs
          → any_fail cs ≡ any_down h (unit ∷ us)
      go rec none rest p q e = cc
      go rec (some level) none p q e = cc
      go rec (some level) (some others) p q e =
          ap (λ o. any_fail (checks_or o)) (sym e)
          ∙ ap₂ ◌||◌ (shown_fail (h.show unit) level p) (rec others q)

  disk_fail : is_fail (check_disk h).status ≡ is_short h.disk
  unfolding check_disk
  disk_fail = go h.disk
    where
      go : (o : Option (ℕ × ℕ)) → is_fail (disk_level o) ≡ is_short o
      go none = refl
      go (some (free, total)) = ground arith

  clock_fail : is_fail (check_clock h).status ≡ false
  unfolding check_clock
  clock_fail = go h.synced
    where
      go : (o : Option Bool) → is_fail (clock_level o) ≡ false
      go none = refl
      go (some b) = ground arith

abbrev pub status_or : Option Report → Level
status_or none = healthy
status_or (some r) = r.status

module _ (h : Host) (s : Station) where
  overall_fail :
      (services : List Check)
      → is_fail (status_or (report_of h s (some services)))
        ≡ (any_contended h s.instruments || (any_fail services || is_short h.disk))
  overall_fail services =
      let ports = check_serial_ports h s.instruments in
      let recorders = check_recorder_liveness h s.instruments s.rows in
      let last = check_clock h ∷ check_disk h ∷ [] in
      is_fail-worst healthy (check_processes h ∷ ports ++ recorders ++ services ++ last)
      ∙ ap (λ b. b || any_fail (ports ++ recorders ++ services ++ last)) (processes_fail h)
      ∙ any_fail-append (ports ++ recorders ++ services) last
      ∙ ap (λ b. b || any_fail last)
          (any_fail-append (ports ++ recorders) services
            ∙ ap (λ b. b || any_fail services)
                (any_fail-append ports recorders
                  ∙ ap₂ ◌||◌ (serial_ports_fail h s.instruments)
                      (recorders_fail h s.instruments s.rows)))
      ∙ regroup (any_contended h s.instruments) (any_fail services) (is_fail (check_clock h).status)
          (is_fail (check_disk h).status) (is_short h.disk) (clock_fail h) (disk_fail h)
    where
      regroup :
          (a b c d e : Bool)
          → c ≡ false
          → d ≡ e
          → (((a || false) || b) || (c || (d || false))) ≡ (a || (b || e))
      regroup a b c d e p q = ground (arith, p, q)

  -- A report says FAIL exactly if more than one process has the device of a present serial receiver
  -- open, a unit that systemd manages here is not active, or the data directory cannot be used or
  -- has less than 10⁹ bytes left. No process check, no recorder, no clock makes it FAIL.
  pub run_self_check_fail :
      (r : Report)
      → run_self_check h s ≡ some r
      → is_fail r.status ≡ (any_contended h s.instruments || (any_down h units || is_short h.disk))
  unfolding run_self_check check_services
  run_self_check_fail r e = go (check_units h units) refl e
    where
      go :
          (o : Option (List Check))
          → check_units h units ≡ o
          → report_of h s o ≡ some r
          → is_fail r.status
            ≡ (any_contended h s.instruments || (any_down h units || is_short h.disk))
      go none p e = cc
      go (some services) p e =
          ap (λ o. is_fail (status_or o)) (sym e)
          ∙ overall_fail services
          ∙ ap (λ b. any_contended h s.instruments || (b || is_short h.disk))
              (units_fail h units services p)

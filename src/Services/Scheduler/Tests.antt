-- ===== src/Services/Scheduler/Tests.antt =====
-- A station with two instruments: the first on the operator's flag, the second on a window.
use e_callisto_ng.Prelude.Text.{codes}
use e_callisto_ng.Prelude.{
  ℕ, ◌+◌, ◌<◌, arith, is_some, put, Bool-cases, inl, inr, ◌==◌, ◌≡◌, refl, true, false, Option,
  none, some, List, [], ◌∷◌,
}
use e_callisto_ng.Window.{IsSpaced, expire}
use e_callisto_ng.Services.Recorder.{Jobs, register, alive, fresh_job, recording}
use e_callisto_ng.Services.Runtime.{RecorderRuntime, by_cadence, is_late, new_row, stall_bound}
use e_callisto_ng.Services.AutoRecover.{
  Effect, Settings, alert_once, attempt, consider, consider_row, expired, hook_recover, new_auto,
}
use e_callisto_ng.Services.AutoRecover.Budget.{alerts, Call, consider_run-IsSpaced, hooks, run}
use e_callisto_ng.Services.AutoRecover.Escalation.{consider_run-alerts}
use e_callisto_ng.Services.Windows.{
  Schedule, fixed, unset, schedule_window, fixed_window, read_hhmm, split_colon, read_number,
  at_time, is_recording_desired,
}
use e_callisto_ng.Services.Scheduler.{
  Env, Instrument, World, may_record, within_drift, active_schedule, desired, gate_ok, tick,
}
use e_callisto_ng.Services.Scheduler.Visit.{is_live}
use e_callisto_ng.Services.Scheduler.Restart.{tick-restart_recovers}
use e_callisto_ng.Services.Scheduler.Settled.{is_settled, tick_keeps, tick_settles}

abbrev settings : Settings
settings = record {
  auto_recover = true;
  stall_grace = 90000;
  auto_recover_budget = 3;
  auto_recover_window = 3600000;
}

abbrev morning : Schedule
morning = record {
  id = 7;
  instrument_id = 2;
  kind = fixed;
  source = unset;
  margin_minutes = 0;
  start_utc = codes "06:00";
  stop_utc = codes "18:30";
  overview_at = [];
  enabled = true;
}

abbrev env : Env
env = record {
  settings = settings;
  require_clock_sync = true;
  synced = some true;
  offset = some 12;
  max_clock_offset = 500;
  schedules = morning ∷ [];
  sky = λ s d. [];
  horizon = 900000;
  prepares = λ k. true;
  overview_runs = λ k. true;
  stops = λ k. true;
}

-- An instrument that ran away from the clock.
abbrev drifted : Env
drifted = record env { offset = some 9000 }

abbrev insts : List Instrument
insts =
    record { id = some 1; sweep_rate = 4000; start_on_boot = true }
    ∷ record { id = some 2; sweep_rate = 4000; start_on_boot = false }
    ∷ []

abbrev wanted_row : RecorderRuntime
wanted_row = record new_row { desired = true }

abbrev rows : ℕ → Option RecorderRuntime
rows = put (λ k. none) 1 (some wanted_row)

abbrev idle_world : World
idle_world = record {
  jobs = λ k. none;
  rows = rows;
  overviews = λ k. none;
  auto = new_auto;
  effects = [];
}

abbrev busy_world : World
busy_world = record idle_world { jobs = λ k. some (record fresh_job { thread = alive }) }

-- 05:00 and 19:00 of the first day
abbrev early : ℕ
early = 18000000

every_window_reads : (k : ℕ) → is_some (desired env early k idle_world.rows) ≡ true
unfolding desired active_schedule schedule_window fixed_window read_hhmm split_colon read_number
    at_time is_recording_desired
every_window_reads k = elim (Bool-cases (2 == k)) [
  | inl windowed ↦ rw windowed refl
  | inr free ↦ rw free refl
]

flag_decides : (v : Env) → v.schedules ≡ morning ∷ [] → desired v early 1 rows ≡ some true
unfolding desired active_schedule
flag_decides v e = rw e refl

tick_settles_example :
    ((tick env early insts idle_world).raised ≡ false)
    × (is_settled true (gate_ok env) ((tick env early insts idle_world).world.jobs 1) ≡ true)
tick_settles_example =
    tick_settles env early (λ k. refl) (λ k. refl) (λ k. refl) insts idle_world every_window_reads 1
      true refl (flag_decides env refl)

tick_keeps_example :
    (tick drifted early insts busy_world).world.jobs 1 ≡ some (record fresh_job { thread = alive })
tick_keeps_example = tick_keeps drifted early insts busy_world 1 (flag_decides drifted refl) refl

-- The operator wants the first instrument again, long after its last frame.
abbrev resumed_row : RecorderRuntime
resumed_row = record wanted_row { last_frame_at = some 1000 }

abbrev resumed_world : World
resumed_world = record idle_world { rows = put (λ k. none) 1 (some resumed_row) }

abbrev first : Instrument
first = record { id = some 1; sweep_rate = 4000; start_on_boot = true }

abbrev second : Instrument
second = record { id = some 2; sweep_rate = 4000; start_on_boot = false }

is_late_there : 1000 + stall_bound 90000 4000 < early
unfolding stall_bound by_cadence
is_late_there = omega arith

resumed_is_wanted : desired env early 1 resumed_world.rows ≡ some true
unfolding desired active_schedule
resumed_is_wanted = refl

gate_is_open : gate_ok env ≡ true
unfolding gate_ok may_record within_drift
gate_is_open = refl

tick-restart_recovers_example :
    (is_live ((tick env early insts resumed_world).world.jobs 1) ≡ true)
    × ((more : List Effect) × ((tick env early insts resumed_world).world.effects
          ≡ hook_recover 1 early ∷ more))
tick-restart_recovers_example =
    tick-restart_recovers env early 1 first (second ∷ []) 1000 resumed_row resumed_world refl
      resumed_is_wanted gate_is_open refl refl refl refl is_late_there refl (omega arith) refl

abbrev stale : ℕ → Call
stale t = record { id = 1; rate = 4000; row = some (record new_row { state = recording }); now = t }

abbrev calls : List Call
calls = stale 100000 ∷ stale 200000 ∷ stale 300000 ∷ stale 400000 ∷ stale 9000000 ∷ []

consider_run-IsSpaced_example : IsSpaced 3600000 3 (hooks 1 (run settings calls new_auto []).1)
consider_run-IsSpaced_example = consider_run-IsSpaced settings calls 1 refl

-- No job, and then the first one.
abbrev empty_jobs : Jobs
empty_jobs = λ k. none

abbrev first_jobs : Jobs
first_jobs = put empty_jobs 1 (some fresh_job)

is_registered : register 1 empty_jobs ≡ some first_jobs
unfolding register
is_registered = refl

abbrev row_seen : RecorderRuntime
row_seen = record new_row { state = recording; last_frame_at = some 50_000 }

abbrev seen_at : ℕ → Call
seen_at t = record { id = 1; rate = 4_000; row = some row_seen; now = t }

-- The fourth and the fifth of the late calls find the budget used up.
abbrev stall : List Call
stall = seen_at 200_000 ∷ seen_at 300_000 ∷ seen_at 400_000 ∷ seen_at 500_000 ∷ seen_at 600_000 ∷ []

consider_run-alerts_example :
    let (a, log) = run settings (seen_at 60_000 ∷ []) new_auto [] in
    alerts 1 (run settings stall a log).1 ≡ alerts 1 log + 1
unfolding consider consider_row attempt alert_once expired expire is_late stall_bound by_cadence
consider_run-alerts_example =
    consider_run-alerts settings 1 [] (seen_at 60_000) stall refl refl refl refl

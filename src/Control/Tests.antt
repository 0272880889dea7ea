-- ===== src/Control/Tests.antt =====
-- A station with one instrument, which an operator starts, captures from, stops and starts again.
use e_callisto_ng.Prelude.{ℕ, ◌≡◌, refl, true, false, none, some, is_some, List, [], ◌∷◌, ◌==◌}
use e_callisto_ng.Prelude.Int.{pos, negsuc}
use e_callisto_ng.Services.Recorder.{thread_start, alive, fresh_job, register, status}
use e_callisto_ng.Services.AutoRecover.{new_auto}
use e_callisto_ng.Services.Scheduler.{
  Env, Instrument, World, active_schedule, desired, gate_ok, tick,
}
use e_callisto_ng.Services.Scheduler.Settled.{is_settled}
use e_callisto_ng.Control.{
  Outside, Request, Site, capture, not_found, overview_instrument, overview_request,
  record_instrument, record_request, serve, serve_all, stop_request, unavailable, hardware,
}
use e_callisto_ng.Control.Intent.{tick_obeys}
use e_callisto_ng.Control.Orphans.{Event, System, happen_all, orphan_goes_on, request, ticked}

abbrev outside : Outside
outside = record {
  exists = λ i. i == 1;
  busy = λ i. false;
  prepares = λ i. true;
  overview = λ i. hardware;
  stops = λ i. true;
}

abbrev empty_site : Site
empty_site = record { jobs = λ i. none; rows = λ i. none }

-- The last of them is for no instrument of the station.
abbrev requests : List (ℕ × Request)
requests =
    (1_000, record_request 1 (pos 0))
    ∷ (2_000, stop_request 1)
    ∷ (3_000, record_request 1 (pos 10))
    ∷ (4_000, record_request 1 (negsuc 0))
    ∷ (5_000, overview_request 1)
    ∷ (6_000, record_request 2 (pos 0))
    ∷ []

abbrev env : Env
env = record {
  settings = record {
    auto_recover = false;
    stall_grace = 90_000;
    auto_recover_budget = 3;
    auto_recover_window = 3_600_000;
  };
  require_clock_sync = true;
  synced = some true;
  offset = some 12;
  max_clock_offset = 500;
  schedules = [];
  sky = λ s d. [];
  horizon = 900_000;
  prepares = λ k. true;
  overview_runs = λ k. true;
  stops = λ k. true;
}

abbrev insts : List Instrument
insts = record { id = some 1; sweep_rate = 4_000; start_on_boot = false } ∷ []

abbrev world : World
world = record {
  jobs = λ k. none;
  rows = (serve_all outside requests empty_site).rows;
  overviews = λ k. none;
  auto = new_auto;
  effects = [];
}

every_flag_reads : (k : ℕ) → is_some (desired env 7_000 k world.rows) ≡ true
unfolding desired active_schedule
every_flag_reads k = refl

unscheduled : active_schedule env.schedules 1 ≡ none
unfolding active_schedule
unscheduled = refl

tick_obeys_example :
    ((tick env 7_000 insts world).raised ≡ false)
    × (is_settled true (gate_ok env) ((tick env 7_000 insts world).world.jobs 1) ≡ true)
tick_obeys_example =
    tick_obeys outside requests empty_site env 7_000 insts world (λ k. refl) (λ k. refl) (λ k. refl)
      refl every_flag_reads 1 refl unscheduled

capture_starts :
    (serve outside 3_000 (record_request 1 (pos 10)) empty_site).1.jobs 1
    ≡ some (record fresh_job { thread = alive })
unfolding record_instrument capture register thread_start
capture_starts = refl

unknown_refused : (serve outside 3_000 (record_request 2 (pos 0)) empty_site).0 ≡ not_found
unfolding record_instrument
unknown_refused = refl

overview_unplugged : (serve outside 3_000 (overview_request 1) empty_site).0 ≡ unavailable
unfolding overview_instrument status
overview_unplugged = refl

-- The instrument is disabled, a tick passes, the operator stops it, and another tick passes.
abbrev recording_system : System
recording_system = record {
  web = λ k. none;
  daemon = record world { jobs = λ k. some (record fresh_job { thread = alive }) };
}

abbrev disabled : List Event
disabled = ticked env 7_000 [] ∷ request 8_000 (stop_request 1) ∷ ticked env 9_000 [] ∷ []

orphan_goes_on_example :
    (happen_all outside disabled recording_system).daemon.jobs 1
    ≡ some (record fresh_job { thread = alive })
orphan_goes_on_example = orphan_goes_on outside 1 disabled recording_system refl

-- ===== src/Services/Cockpit/Tests.antt =====
-- A station whose second instrument records from 06:00 to 18:30, and whose third has a manual
-- schedule.
use e_callisto_ng.Prelude.{◌≡◌, refl, true, false, none, some, [], ◌∷◌}
use e_callisto_ng.Prelude.Text.{codes}
use e_callisto_ng.Services.Runtime.{Table}
use e_callisto_ng.Services.Windows.{
  crossing, crossings, events_of, sun_span, sun_trim, trimmed, Schedule, at_time, fixed,
  fixed_window, is_recording_desired, manual, read_hhmm, read_number, split_colon, sun_window,
  unset,
}
use e_callisto_ng.Services.Scheduler.{Env, active_schedule, desired}
use e_callisto_ng.Services.Cockpit.{enabled_schedule, next_action, next_start, shows_on}
use e_callisto_ng.Services.Cockpit.Agreement.{next_action_agrees}

abbrev morning : Schedule
morning = record {
  id = 7;
  instrument_id = 2;
  kind = fixed;
  source = unset;
  margin_minutes = 0;
  start_utc = codes "06:00";
  stop_utc = codes "18:30";
  overview_at = [];
  enabled = true;
}

abbrev by_hand : Schedule
by_hand = record morning { id = 8; instrument_id = 3; kind = manual }

abbrev env : Env
env = record {
  settings = record {
    auto_recover = false;
    stall_grace = 90_000;
    auto_recover_budget = 3;
    auto_recover_window = 3_600_000;
  };
  require_clock_sync = true;
  synced = some true;
  offset = some 12;
  max_clock_offset = 500;
  schedules = morning ∷ by_hand ∷ [];
  sky = λ s d.
      (20_000_000, 880_000)
      ∷ (21_000_000, 900_000)
      ∷ (60_000_000, 900_000)
      ∷ (61_000_000, 880_000)
      ∷ [];
  horizon = 900_000;
  prepares = λ k. true;
  overview_runs = λ k. true;
  stops = λ k. true;
}

no_rows : Table
no_rows k = none

next_action_agrees_example :
    shows_on (next_action env 30_000_000 2) ≡ desired env 30_000_000 2 no_rows
unfolding enabled_schedule
next_action_agrees_example = next_action_agrees env 30_000_000 2 no_rows morning refl refl

six : next_action env 18_000_000 2 ≡ some (next_start 21_600_000)
unfolding next_action enabled_schedule fixed_window read_hhmm split_colon read_number at_time
    is_recording_desired
six = refl

-- The dashboard shows the Sun's window for the manual schedule; the scheduler follows the flag.
manual_shown : shows_on (next_action env 30_000_000 3) ≡ some true
unfolding next_action enabled_schedule sun_window sun_trim sun_span events_of crossings crossing
    trimmed is_recording_desired
manual_shown = refl

manual_wanted : desired env 30_000_000 3 no_rows ≡ some false
unfolding desired active_schedule no_rows
manual_wanted = refl

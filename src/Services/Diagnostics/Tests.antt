-- ===== src/Services/Diagnostics/Tests.antt =====
-- A station with one receiver: once in order, and once with its port open in two processes.
use e_callisto_ng.Prelude.{ℕ, ◌≡◌, refl, true, false, none, some, List, [], ◌∷◌, ◌||◌, all}
use e_callisto_ng.Prelude.Text.{codes}
use e_callisto_ng.Prelude.Decimal.{decimal, digits_on}
use e_callisto_ng.Legacy.{read_int}
use e_callisto_ng.Services.Recorder.{recording}
use e_callisto_ng.Services.Runtime.{RecorderRuntime, by_cadence, is_late, is_stalled, stall_bound}
use e_callisto_ng.Services.Diagnostics.{
  Host, Instrument, Process, Station, check_processes, Level, healthy, reported, fail,
}
use e_callisto_ng.Services.Diagnostics.Report.{
  Report, check_clock, check_disk, check_services, run_self_check, units,
}
use e_callisto_ng.Services.Diagnostics.Verdict.{
  any_contended, any_down, is_short, run_self_check_fail,
}
use e_callisto_ng.Services.Diagnostics.Healthy.{is_populated, run_self_check_healthy, runs_well}

abbrev port : List ℕ
port = codes "/dev/ttyUSB0"

abbrev web : Process
web = record {
  pid = 410;
  cmdline = some (codes "python -m uvicorn ecallisto_ng.api.app:app");
  links = some (some (codes "socket:[9]") ∷ []);
}

abbrev acquire : Process
acquire = record {
  pid = 411;
  cmdline = some (codes "ecallisto-ng acquire");
  links = some (none ∷ some port ∷ []);
}

abbrev terminal : Process
terminal = record { pid = 977; cmdline = some (codes "minicom"); links = some (some port ∷ []) }

abbrev receiver : Instrument
receiver = record {
  id = 1;
  name = codes "GRAZ";
  instrument_class = codes "heterodyne";
  address = port;
  sweep_rate = 4_000;
  file_seconds = 900;
}

abbrev row : RecorderRuntime
row = record {
  state = recording;
  last_file = none;
  desired = true;
  last_frame_at = some 99_500;
  updated_at = 10_000;
}

abbrev station : Station
station = record { instruments = receiver ∷ []; rows = (1, row) ∷ [] }

abbrev host_with : List Process → Host
host_with ps = record {
  processes = some ps;
  run_loops_in_web = false;
  exists = λ device. true;
  files = some [];
  show = λ unit. some (codes "ActiveState=active\nSubState=running\nNRestarts=2");
  synced = some true;
  disk = some (50_000_000_000, 100_000_000_000);
  stall_grace = 30_000;
  now = 100_000;
}

abbrev in_order : Host
in_order = host_with (web ∷ acquire ∷ [])

abbrev contended : Host
contended = host_with (web ∷ acquire ∷ terminal ∷ [])

-- The report with that status of the port.
abbrev report_with : Level → Level → Report
report_with overall level = record {
  status = overall;
  checks =
      reported (codes "processes") healthy
      ∷ reported (codes "serial:/dev/ttyUSB0") level
      ∷ reported (codes "recorder:1") healthy
      ∷ reported (codes "service:ecallisto-web") healthy
      ∷ reported (codes "service:ecallisto-acquire") healthy
      ∷ reported (codes "clock") healthy
      ∷ reported (codes "disk") healthy
      ∷ [];
}

in_order_report : run_self_check in_order station ≡ some (report_with healthy healthy)
unfolding run_self_check check_processes check_services check_clock check_disk read_int is_stalled
    is_late stall_bound by_cadence decimal digits_on
in_order_report = refl

contended_report : run_self_check contended station ≡ some (report_with fail fail)
unfolding run_self_check check_processes check_services check_clock check_disk read_int is_stalled
    is_late stall_bound by_cadence decimal digits_on
contended_report = refl

run_self_check_fail_example : true ≡ (
    any_contended contended station.instruments
    || (any_down contended units || is_short contended.disk))
run_self_check_fail_example =
    run_self_check_fail contended station (report_with fail fail) contended_report

run_self_check_healthy_example :
    (is_populated 1 in_order.processes ≡ true)
    × (all (runs_well in_order station.instruments) station.rows ≡ true)
run_self_check_healthy_example =
    run_self_check_healthy in_order station (report_with healthy healthy) in_order_report refl

-- ===== src/Services/Scheduler.antt =====
-- The scheduler, src/ecallisto_ng/services/scheduler_service.py, with the gates of clock.py.
-- One tick visits the enabled instruments in order; an exception ends it, and the loop goes on
-- with the next. What `_start` builds for the recorder and the sweep of `run_overview` are
-- parameters: whether they succeed; so is whether the `stop` of a driver does. A tick reads the clock once. `last_overview_date` is a map from the schedule's id to a day.
use e_callisto_ng.Prelude.{
  ℕ, ◌/◌, Bool, true, false, not, ◌&&◌, Option, none, some, List, [], ◌∷◌, ◌++◌, map, leb, ltb,
  ◌==◌, put, if◌then◌else◌,
}
use e_callisto_ng.Services.Recorder.{
  RecorderState, RecorderStatus, Job, Jobs, idle, recording, is_recording, register, status, stop,
  thread_start,
}
use e_callisto_ng.Services.Runtime.{RecorderRuntime, Table, get_desired, write, set_desired}
use e_callisto_ng.Services.Windows.{
  Kind, Schedule, Source, Window, clock_text, day_ms, is_recording_desired, manual, fixed, tracked,
  schedule_window,
}
use e_callisto_ng.Services.AutoRecover.{AutoRecover, Effect, Settings, consider}
pub mod Visit
pub mod Settled
pub mod Restart
pub mod Tests

pub record Instrument : Type 0 where
  pub id : Option ℕ
  pub sweep_rate : ℕ
  pub start_on_boot : Bool

pub record World : Type 0 where
  pub jobs : Jobs
  pub rows : Table
  pub overviews : ℕ → Option ℕ
  pub auto : AutoRecover
  pub effects : List Effect

-- The world, and whether an exception was raised.
pub record Turn : Type 0 where
  pub world : World
  pub raised : Bool

abbrev pub done : World → Turn
done w = record { world = w; raised = false }

abbrev pub raise : World → Turn
raise w = record { world = w; raised = true }

abbrev pub proceed : Turn → (World → Turn) → Turn
proceed t k = if t.raised then t else k t.world

unfoldable pub may_record : Bool → Option Bool → Bool
may_record true (some false) = false
may_record _ _ = true

-- The offset is its magnitude, in milliseconds; 0 turns the gate off.
unfoldable pub within_drift : Option ℕ → ℕ → Bool
within_drift none limit = true
within_drift (some offset) limit = if leb limit 0 then true else leb offset limit

-- Code points in order, as Python compares texts.
unfoldable pub text_lt : List ℕ → List ℕ → Bool
text_lt [] [] = false
text_lt [] (d ∷ ds) = true
text_lt (c ∷ cs) [] = false
text_lt (c ∷ cs) (d ∷ ds) = if c == d then text_lt cs ds else ltb c d

abbrev pub is_windowed : Kind → Bool
is_windowed manual = false
is_windowed _ = true

unfoldable pub active_schedule : List Schedule → ℕ → Option Schedule
active_schedule [] i = none
active_schedule (s ∷ ss) i =
    if s.instrument_id == i && (s.enabled && is_windowed s.kind)
    then some s
    else active_schedule ss i

-- What one tick reads and does not change: the settings, the clock and the configuration.
pub record Env : Type 0 where
  pub settings : Settings
  pub require_clock_sync : Bool
  pub synced : Option Bool
  pub offset : Option ℕ
  pub max_clock_offset : ℕ
  pub schedules : List Schedule
  pub sky : Source → ℕ → List (ℕ × ℕ)
  pub horizon : ℕ
  -- whether the driver, the channels, the metadata and the calibration of `_start` are built
  pub prepares : ℕ → Bool
  -- whether `run_overview` returns
  pub overview_runs : ℕ → Bool
  -- whether the driver that records returns from `stop`; that of the FPGA receiver writes unguarded
  pub stops : ℕ → Bool

unfoldable pub gate_ok : Env → Bool
gate_ok v = may_record v.require_clock_sync v.synced && within_drift v.offset v.max_clock_offset

abbrev pub wants : Option Window → ℕ → Option Bool
wants none now = none
wants (some window) now = some (is_recording_desired window now)

abbrev pub desired_by : Env → ℕ → ℕ → Table → Option Schedule → Option Bool
desired_by v now i rows none = some (get_desired i rows)
desired_by v now i rows (some s) = wants (schedule_window v.sky v.horizon s (now / day_ms)) now

-- The window is the intent, and without one the operator's flag; none is an exception.
unfoldable pub desired : Env → ℕ → ℕ → Table → Option Bool
desired v now i rows = desired_by v now i rows (active_schedule v.schedules i)

abbrev with_recovery : World → AutoRecover × List Effect → World
with_recovery w (auto, effects) = record w { auto = auto; effects = w.effects ++ effects }

module _ (v : Env) (now i : ℕ) where
  abbrev armed : World → Option Jobs → Turn
  armed w none = raise w
  armed w (some jobs) =
      done (record w { jobs = thread_start i jobs; rows = write i recording none now w.rows })

  unfoldable pub start_recording : World → Turn
  start_recording w = if v.prepares i then armed w (register i w.jobs) else raise w

  unfoldable pub stop_recording : World → Turn
  stop_recording w = if v.stops i then done (record w { jobs = stop i w.jobs }) else raise w

  abbrev is_today : Option ℕ → Bool
  is_today none = false
  is_today (some day) = day == now / day_ms

  abbrev is_due : Schedule → Option ℕ → Bool
  is_due s last =
      text_lt [] s.overview_at
      && not (is_today last)
      && not (text_lt (clock_text now) s.overview_at)

  abbrev sweep : Schedule → World → Turn
  sweep s w =
      if v.overview_runs i
      then done (record w { overviews = put w.overviews s.id (some (now / day_ms)) })
      else raise w

  abbrev unless_recording : RecorderStatus × Jobs → World → (World → Turn) → Turn
  unless_recording (st, jobs) w k =
      let w' = record w { jobs = jobs } in if is_recording st.state then done w' else k w'

  -- `_maybe_overview`
  unfoldable pub maybe_overview : Option Schedule → World → Turn
  maybe_overview none w = done w
  maybe_overview (some s) w =
      if is_due s (w.overviews s.id) then unless_recording (status i w.jobs) w (sweep s) else done w

  unfoldable pub decide : Bool → Bool → World → Turn
  decide want busy w =
      if want && (gate_ok v && not busy)
      then start_recording w
      else if not want && busy
      then stop_recording w
      else maybe_overview (active_schedule v.schedules i) w

  unfoldable pub act : Bool → World → Turn
  act want w =
      let (st, jobs) = status i w.jobs in
      decide want (is_recording st.state) (record w { jobs = jobs })

  unfoldable pub recover_stalled : Bool → ℕ → World → Turn
  recover_stalled want rate w =
      if want && gate_ok v
      then done (with_recovery w (consider v.settings i rate (w.rows i) now w.auto))
      else done w

  abbrev visit_with : ℕ → World → Option Bool → Turn
  visit_with rate w none = raise w
  visit_with rate w (some want) = proceed (act want w) (recover_stalled want rate)

  unfoldable pub visit : ℕ → World → Turn
  visit rate w = visit_with rate w (desired v now i w.rows)

abbrev pub visit_some : Env → ℕ → Option ℕ → ℕ → World → Turn
visit_some v now none rate w = done w
visit_some v now (some i) rate w = visit v now i rate w

unfoldable pub tick : Env → ℕ → List Instrument → World → Turn
tick v now [] w = done w
tick v now (inst ∷ insts) w =
    proceed (visit_some v now inst.id inst.sweep_rate w) (tick v now insts)

-- `seed_desired_from_boot`: a new process owns no recording, so a row that claims one is reset;
-- the intent is set from `start_on_boot` only when the boot id differs from the marker file's.
abbrev reset_row : ℕ → Option RecorderRuntime → Option RecorderRuntime
reset_row now none = none
reset_row now (some r) =
    if is_recording r.state then some (record r { state = idle; updated_at = now }) else some r

abbrev reset_rows : ℕ → Table → Table
reset_rows now rows i = reset_row now (rows i)

abbrev is_same_boot : Option ℕ → ℕ → Bool
is_same_boot none boot = false
is_same_boot (some last) boot = last == boot

abbrev seed_by : ℕ → Bool → ℕ → Table → Option Schedule → Table
seed_by now on_boot i rows (some s) = rows
seed_by now on_boot i rows none = set_desired i on_boot now rows

abbrev seed_one : List Schedule → ℕ → Bool → ℕ → Table → Table
seed_one schedules now on_boot i rows = seed_by now on_boot i rows (active_schedule schedules i)

abbrev seed_some : List Schedule → ℕ → Bool → Option ℕ → Table → Table
seed_some schedules now on_boot none rows = rows
seed_some schedules now on_boot (some i) rows = seed_one schedules now on_boot i rows

unfoldable pub seed_all : List Schedule → ℕ → List Instrument → Table → Table
seed_all schedules now [] rows = rows
seed_all schedules now (inst ∷ insts) rows =
    seed_all schedules now insts (seed_some schedules now inst.start_on_boot inst.id rows)

unfoldable pub seed_desired_from_boot :
    List Schedule → ℕ → Option ℕ → ℕ → List Instrument → Table → Table
seed_desired_from_boot schedules now last boot insts rows =
    if is_same_boot last boot
    then reset_rows now rows
    else seed_all schedules now insts (reset_rows now rows)

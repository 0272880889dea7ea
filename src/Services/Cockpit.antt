-- ===== src/Services/Cockpit.antt =====
-- The dashboard's line on what an instrument does next, `_next_action` of
-- src/ecallisto_ng/services/operations.py, over what a tick of the scheduler reads. An action is its
-- kind and its time, without the text; the outer `none` is the exception of an hour or a minute
-- out of range.
use e_callisto_ng.Prelude.{
  ℕ, ◌*◌, ◌-◌, ◌/◌, ◌≡◌, refl, sym, ap, ◌∙◌, Bool, true, false, ◌&&◌, Bool-cases, inl, inr, Option,
  none, some, List, [], ◌∷◌, ltb, if◌then◌else◌, ◌==◌, arith,
}
use e_callisto_ng.Services.Runtime.{Table}
use e_callisto_ng.Services.Windows.{
  Kind, Schedule, Source, Window, body, day_ms, fixed, fixed_window, is_recording_desired, manual,
  schedule_window, sun, sun_trim, sun_window, tracked, unset, tracked_window, window_of,
}
use e_callisto_ng.Services.Scheduler.{Env, active_schedule, desired, desired_by, is_windowed, wants}
pub mod Agreement
mod Tests

pub data Action : Type 0 where
  no_schedule : Action
  no_window : Action
  recording_until : ℕ → Action
  next_start : ℕ → Action
  window_passed : Action

-- The first enabled schedule of the instrument, of any kind.
unfoldable pub enabled_schedule : List Schedule → ℕ → Option Schedule
enabled_schedule [] i = none
enabled_schedule (s ∷ ss) i =
    if s.instrument_id == i && s.enabled then some s else enabled_schedule ss i

abbrev pub window_by : Env → Kind → Schedule → ℕ → Option Window
window_by v fixed s day = fixed_window day s.start_utc s.stop_utc
window_by v _ s day = some (sun_window (sun_trim s.margin_minutes 0) (day * day_ms) (v.sky sun day))

abbrev pub action_at : ℕ → Window → Action
action_at now none = no_window
action_at now (some (from, until)) =
    if is_recording_desired (some (from, until)) now
    then recording_until until
    else if ltb now from
    then next_start from
    else window_passed

abbrev pub action_in : ℕ → Option Window → Option Action
action_in now none = none
action_in now (some window) = some (action_at now window)

abbrev pub action_of : Env → ℕ → Option Schedule → Option Action
action_of v now none = some no_schedule
action_of v now (some s) = action_in now (window_by v s.kind s (now / day_ms))

unfoldable pub next_action : Env → ℕ → ℕ → Option Action
next_action v now i = action_of v now (enabled_schedule v.schedules i)

abbrev pub is_on : Action → Bool
is_on (recording_until t) = true
is_on _ = false

abbrev pub shows_on : Option Action → Option Bool
shows_on none = none
shows_on (some a) = some (is_on a)

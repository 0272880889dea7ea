-- ===== src/Services/Runtime.antt =====
-- The persisted run-state of the recorders and the liveness rule on it:
-- src/ecallisto_ng/services/recorder_state.py and liveness.py. The table is a map; the
-- retry of an insert that another process won leaves what one write leaves, so a write is one step.
use e_callisto_ng.Prelude.{
  ℕ, ◌+◌, ◌/◌, max, Bool, false, Option, none, some, put, ltb, if◌then◌else◌,
}
use e_callisto_ng.Services.Recorder.{RecorderState, idle, is_recording}

pub record RecorderRuntime : Type 0 where
  pub state : RecorderState
  pub last_file : Option ℕ
  pub desired : Bool
  pub last_frame_at : Option ℕ
  pub updated_at : ℕ

abbrev pub Table : Type 0
Table = ℕ → Option RecorderRuntime

abbrev pub new_row : RecorderRuntime
new_row = record {
  state = idle;
  last_file = none;
  desired = false;
  last_frame_at = none;
  updated_at = 0;
}

abbrev pub row_of : Option RecorderRuntime → RecorderRuntime
row_of none = new_row
row_of (some r) = r

abbrev pub stamped : ℕ → RecorderRuntime → RecorderRuntime
stamped now r = record r { updated_at = now }

unfoldable pub upsert : ℕ → (RecorderRuntime → RecorderRuntime) → ℕ → Table → Table
upsert i apply now rows = put rows i (some (stamped now (apply (row_of (rows i)))))

abbrev pub kept_file : Option ℕ → Option ℕ → Option ℕ
kept_file old none = old
kept_file old (some f) = some f

unfoldable pub write : ℕ → RecorderState → Option ℕ → ℕ → Table → Table
write i s file = upsert i (λ r. record r { state = s; last_file = kept_file r.last_file file })

unfoldable pub touch_frame : ℕ → ℕ → Table → Table
touch_frame i now = upsert i (λ r. record r { last_frame_at = some now }) now

unfoldable pub set_desired : ℕ → Bool → ℕ → Table → Table
set_desired i d = upsert i (λ r. record r { desired = d })

abbrev pub get_desired : ℕ → Table → Bool
get_desired i rows = (row_of (rows i)).desired

-- Eight sweeps, in milliseconds rounded down: an age in whole milliseconds passes it exactly when it passes the quotient.
unfoldable pub by_cadence : ℕ → ℕ
by_cadence rate = if ltb 0 rate then 8000000 / rate else 0

unfoldable pub stall_bound : ℕ → ℕ → ℕ
stall_bound grace rate = max grace (by_cadence rate)

-- Where the age is measured from: the last frame, and without one the last write of the row.
abbrev pub since : Option ℕ → ℕ → ℕ
since none updated = updated
since (some t) updated = t

-- The age of the row is beyond the bound.
unfoldable pub is_late : ℕ → RecorderRuntime → ℕ → Bool
is_late bound r now = ltb (since r.last_frame_at r.updated_at + bound) now

unfoldable pub is_stalled : ℕ → ℕ → RecorderRuntime → ℕ → Bool
is_stalled grace rate r now =
    if is_recording r.state then is_late (stall_bound grace rate) r now else false

-- ===== src/Services/Recorder.antt =====
-- The process-wide registry of recordings, src/ecallisto_ng/services/recorder.py. A job's
-- thread is created, alive or ended; `RecorderStatus.messages`, the callbacks and what the
-- thread records are left out.
use e_callisto_ng.Prelude.Text.{codes}
use e_callisto_ng.Prelude.{
  ℕ, Bool, true, false, Option, none, some, List, [], ◌∷◌, put, if◌then◌else◌,
}
pub mod Race
pub mod Run
pub mod Ends
pub mod Tests

pub data RecorderState : Type 0 where
  idle : RecorderState
  recording : RecorderState
  failed : RecorderState

abbrev pub is_recording : RecorderState → Bool
is_recording recording = true
is_recording _ = false

pub data Thread : Type 0 where
  created : Thread
  alive : Thread
  ended : Thread

abbrev pub is_alive : Thread → Bool
is_alive alive = true
is_alive _ = false

pub record RecorderStatus : Type 0 where
  pub state : RecorderState
  pub last_file : Option ℕ
  pub error : Option (List ℕ)

pub record Job : Type 0 where
  pub thread : Thread
  pub status : RecorderStatus
  pub stop_asked : Bool

abbrev pub Jobs : Type 0
Jobs = ℕ → Option Job

abbrev pub idle_status : RecorderStatus
idle_status = record { state = idle; last_file = none; error = none }

abbrev pub recording_status : RecorderStatus
recording_status = record { state = recording; last_file = none; error = none }

-- Python's truth of an optional string.
abbrev pub is_given : Option (List ℕ) → Bool
is_given none = false
is_given (some []) = false
is_given (some (c ∷ cs)) = true

abbrev message_or : List ℕ → Option (List ℕ) → List ℕ
message_or d none = d
message_or d (some []) = d
message_or d (some (c ∷ cs)) = c ∷ cs

-- A job that claims to record and whose thread does not run is wedged.
unfoldable pub reconcile : Job → Job
reconcile j =
    if is_recording j.status.state
    then if is_alive j.thread then j else record j {
      status = record j.status {
        state = failed;
        error = some (message_or (codes "recorder thread died") j.status.error);
      };
    }
    else j

abbrev pub job_status : Option Job → RecorderStatus
job_status none = idle_status
job_status (some j) = j.status

abbrev pub reconciled : Option Job → Option Job
reconciled none = none
reconciled (some j) = some (reconcile j)

-- The reconciliation writes to the shared job.
unfoldable pub status : ℕ → Jobs → RecorderStatus × Jobs
status i jobs = (job_status (reconciled (jobs i)), put jobs i (reconciled (jobs i)))

abbrev pub fresh_job : Job
fresh_job = record { thread = created; status = recording_status; stop_asked = false }

-- `none` is the exception "already recording". The new job's thread does not run yet.
unfoldable pub register : ℕ → Jobs → Option Jobs
register i jobs =
    if is_recording (job_status (jobs i)).state then none else some (put jobs i (some fresh_job))

abbrev pub with_thread : Thread → Option Job → Option Job
with_thread t none = none
with_thread t (some j) = some (record j { thread = t })

unfoldable pub thread_start : ℕ → Jobs → Jobs
thread_start i jobs = put jobs i (with_thread alive (jobs i))

abbrev pub started : ℕ → Option Jobs → Option Jobs
started i none = none
started i (some jobs) = some (thread_start i jobs)

unfoldable pub start : ℕ → Jobs → Option Jobs
start i jobs = started i (register i jobs)

abbrev pub asked : Option Job → Option Job
asked none = none
asked (some j) =
    if is_recording j.status.state then some (record j { stop_asked = true }) else some j

unfoldable pub stop : ℕ → Jobs → Jobs
stop i jobs = put jobs i (asked (jobs i))

abbrev pub settled : Option ℕ → Option (List ℕ) → Option Job → Option Job
settled path err none = none
settled path err (some j) = some (record j {
  status = record { state = if is_given err then failed else idle; last_file = path; error = err };
})

unfoldable pub finish : ℕ → Option ℕ → Option (List ℕ) → Jobs → Jobs
finish i path err jobs = put jobs i (settled path err (jobs i))

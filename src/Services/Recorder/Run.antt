-- ===== src/Services/Recorder/Run.antt =====
-- How the thread of a recording ends, `_run` of src/ecallisto_ng/services/recorder.py, with the
-- throttled heartbeat of its `_publish`. What the continuous loop did is a run of the acquisition
-- model; a file's path is its number in that run.
use e_callisto_ng.Prelude.Text.{codes}
use e_callisto_ng.Prelude.{
  ℕ, ◌+◌, Bool, true, false, Option, none, some, List, [], ◌∷◌, ◌++◌, length, put, leb,
  if◌then◌else◌,
}
use e_callisto_ng.Acquisition
use e_callisto_ng.Services.Recorder.{Jobs, RecorderState, ended, failed, finish, idle, with_thread}
use e_callisto_ng.Services.Runtime.{Table, touch_frame, write}

-- The clauses of the `try` in `_run`; the texts are those of the exceptions.
pub data End : Type 0 where
  finished : Option ℕ → End
  busy : End
  fatal raised : List ℕ → End

abbrev pub last_path : List (List Acquisition.SpectrumFrame) → Option ℕ
last_path [] = none
last_path (f ∷ fs) = some (length (f ∷ fs))

-- `true` beside the text of an exception says that it is a `FatalInstrumentError`.
abbrev as_exception : Bool × List ℕ → End
as_exception (true, text) = fatal text
as_exception (false, text) = raised text

abbrev end_with : (Acquisition.Error → Bool × List ℕ) → Option Acquisition.Error → Option ℕ → End
end_with text none path = finished path
end_with text (some e) path = as_exception (text e)

-- The port is held for the whole recording, or the recording does not begin.
unfoldable pub end_of : (Acquisition.Error → Bool × List ℕ) → Bool → Acquisition.Run → End
end_of text free r = if free then end_with text r.error (last_path r.files) else busy

abbrev pub end_path : End → Option ℕ
end_path (finished path) = path
end_path _ = none

abbrev pub end_error : End → Option (List ℕ)
end_error (finished path) = none
end_error busy = some (codes "instrument busy (port in use)")
end_error (fatal text) = some (codes "instrument fault: " ++ text)
end_error (raised text) = some text

abbrev pub end_state : End → RecorderState
end_state (finished path) = idle
end_state _ = failed

-- `_finish`, `on_state` and the end of the thread.
unfoldable pub run_end : ℕ → End → ℕ → Jobs × Table → Jobs × Table
run_end i e now (jobs, rows) =
    let settled_jobs = finish i (end_path e) (end_error e) jobs in
    (
      put settled_jobs i (with_thread ended (settled_jobs i)),
      write i (end_state e) (end_path e) now rows,
    )

-- milliseconds
abbrev pub heartbeat : ℕ
heartbeat = 5000

-- One frame: the time of the last stamp, and the table.
unfoldable pub publish_beat : ℕ → ℕ → ℕ × Table → ℕ × Table
publish_beat i now (last, rows) =
    if leb (last + heartbeat) now then (now, touch_frame i now rows) else (last, rows)

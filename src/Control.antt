-- ===== src/Control.antt =====
-- The operator's requests for a recording, src/ecallisto_ng/api/routes/instruments.py: record, stop
-- and overview. The process that serves them has a registry of its own; the table is shared with the
-- process that runs the scheduler. Whether an instrument exists, whether its port is in use,
-- whether the driver and what else a capture needs can be built, and how an overview ends and
-- whether a driver stops are parameters. A reply is its status, without the texts.
use e_callisto_ng.Prelude.Int.{ℤ, pos, negsuc}
use e_callisto_ng.Prelude.{
  ℕ, Bool, true, false, not, ◌&&◌, ◌||◌, Option, none, some, List, [], ◌∷◌, if◌then◌else◌, ◌==◌,
}
use e_callisto_ng.Services.Recorder.{
  Jobs, RecorderStatus, is_recording, job_status, recording, register, status, stop, thread_start,
}
use e_callisto_ng.Services.Runtime.{Table, set_desired, write}
pub mod Intent
pub mod Orphans
mod Tests

-- 200, 404, 409, 503 and 500
pub data Reply : Type 0 where
  served : Reply
  not_found : Reply
  conflict : Reply
  unavailable : Reply
  server_error : Reply

-- How `run_overview` ends: it returns, raises an OSError, or raises anything else.
pub data Sweep : Type 0 where
  swept : Sweep
  hardware : Sweep
  other : Sweep

pub record Site : Type 0 where
  pub jobs : Jobs
  pub rows : Table

pub record Outside : Type 0 where
  pub exists : ℕ → Bool
  pub busy : ℕ → Bool
  pub prepares : ℕ → Bool
  pub overview : ℕ → Sweep
  -- whether the driver of the recording, if one runs in this process, returns from `stop`
  pub stops : ℕ → Bool

-- `frames <= 0`
abbrev pub is_continuous : ℤ → Bool
is_continuous (pos n) = n == 0
is_continuous (negsuc n) = true

module _ (x : Outside) (now i : ℕ) where
  abbrev pub armed : Site → Option Jobs → Reply × Site
  armed s none = (conflict, s)
  armed s (some jobs) =
      (served, record { jobs = thread_start i jobs; rows = write i recording none now s.rows })

  -- A capture of so many sweeps, in this process.
  unfoldable pub capture : Site → Reply × Site
  capture s =
      if x.busy i
      then (conflict, s)
      else if x.prepares i
      then armed s (register i s.jobs)
      else (server_error, s)

  unfoldable pub record_instrument : ℤ → Site → Reply × Site
  record_instrument frames s =
      if x.exists i
      then if is_continuous frames
        then (served, record s { rows = set_desired i true now s.rows })
        else capture s
      else (not_found, s)

  unfoldable pub stop_instrument : Site → Reply × Site
  stop_instrument s =
      if x.stops i || not (is_recording (job_status (s.jobs i)).state)
      then (served, record s { jobs = stop i s.jobs; rows = set_desired i false now s.rows })
      else (server_error, record s { rows = set_desired i false now s.rows })

  abbrev pub overview_reply : Sweep → Reply
  overview_reply swept = served
  overview_reply hardware = unavailable
  overview_reply other = server_error

  abbrev pub unless_recording : RecorderStatus × Jobs → Site → Reply × Site
  unless_recording (st, jobs) s = (
    (if is_recording st.state
        then conflict
        else if x.prepares i
        then if x.busy i then conflict else overview_reply (x.overview i)
        else server_error),
    record s { jobs = jobs },
  )

  unfoldable pub overview_instrument : Site → Reply × Site
  overview_instrument s =
      if x.exists i then unless_recording (status i s.jobs) s else (not_found, s)

pub data Request : Type 0 where
  record_request : ℕ → ℤ → Request
  stop_request : ℕ → Request
  overview_request : ℕ → Request

abbrev pub serve : Outside → ℕ → Request → Site → Reply × Site
serve x now (record_request i frames) = record_instrument x now i frames
serve x now (stop_request i) = stop_instrument x now i
serve x now (overview_request i) = overview_instrument x now i

-- Requests with their times.
abbrev pub serve_all : Outside → List (ℕ × Request) → Site → Site
serve_all x [] s = s
serve_all x ((now, q) ∷ qs) s = serve_all x qs (serve x now q s).1

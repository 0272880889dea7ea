-- ===== src/Bench.antt =====
-- The requests that use a receiver outside a recording, src/ecallisto_ng/api/routes/instruments.py,
-- over the Callisto driver: the session of the bench routes, with the operation itself as a
-- parameter, and `diagnose_instrument`. Whether the recorder says that the instrument records and
-- whether its lock is free are arguments.
use e_callisto_ng.Prelude.{Bool, true, false, not, if◌then◌else◌, ℕ}
use e_callisto_ng.Callisto.Driver.Monad.{
  Device, Fault, Io, Link, Outcome, done, os_error, raised, unfinished, ◌>>=◌, ◌>>◌,
}
use e_callisto_ng.Callisto.Driver.{close, connect}
use e_callisto_ng.Callisto.Driver.Handshake.{identify}
pub mod Sessions
mod Tests

-- 200, 409, 503, 502, and an exception that no handler maps
pub data Answer (A : Type 0) : Type 0 where
  served : A → Answer A
  conflict unavailable bad_gateway : Answer A
  failed : Fault → Answer A

module _ {A : Type 0} where
  abbrev pub or_raised : Outcome (Unit {0}) → Outcome A → Outcome A
  or_raised (done u) r = r
  or_raised (raised e) r = raised e

  -- `try: m finally: c`
  unfoldable pub try_finally : Io A → Io (Unit {0}) → Io A
  try_finally m c s = let (r, t) = m s in let (q, u) = c t in (or_raised q r, u)

  abbrev pub session_answer : Outcome A → Answer A
  session_answer (done a) = served a
  session_answer (raised os_error) = unavailable
  session_answer (raised e) = failed e

  -- `_bench_session` around an operation
  unfoldable pub bench_session : Device → ℕ → Bool → Bool → Io A → Link → Answer A × Link
  bench_session dev fuel recording free operation s =
      if recording
      then (conflict, s)
      else if not free
      then (conflict, s)
      else let (r, t) = (connect dev fuel >> try_finally operation (close dev)) s in
        (session_answer r, t)

abbrev pub probe_answer : Outcome (Unit {0}) → Outcome (Unit {0}) → Answer (Unit {0})
probe_answer (raised e) r = failed e
probe_answer (done u) (done v) = served v
probe_answer (done u) (raised unfinished) = failed unfinished
probe_answer (done u) (raised e) = bad_gateway

unfoldable pub diagnose : Device → ℕ → Bool → Bool → Link → Answer (Unit {0}) × Link
diagnose dev fuel recording free s =
    let (r, t) = (connect dev fuel >> identify dev fuel) s in
    let (q, u) = close dev t in (probe_answer q r, u)

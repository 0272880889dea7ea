-- ===== src/Callisto/Driver/Monad.antt =====
-- The driver's methods as actions on one record: the driver's fields, what it has done to the
-- connection, and how many calls of the outside it has made.
use e_callisto_ng.Prelude.{
  ℕ, ◌+◌, Bool, not, ◌&&◌, Option, none, some, List, [], ◌∷◌, ◌++◌, if◌then◌else◌,
}
use e_callisto_ng.Callisto.Protocol.{Firmware}

pub data Op : Type 0 where
  wrote : List ℕ → Op
  reading : Op
  closing : Op
  -- the warning that `_recover` logs: whether the port is reopened, and the time it read
  warned : Bool → ℕ → Op

pub data Reply : Type 0 where
  chunk : List ℕ → Reply
  failed : Reply

-- The serial port, the clock, and the thread that may stop the driver, at each call.
pub record Device : Type 0 where
  pub reply : ℕ → Reply
  pub write_fails : ℕ → Bool
  pub close_fails : ℕ → Bool
  pub clock : ℕ → ℕ
  pub stopped : ℕ → Bool

pub record Config : Type 0 where
  pub focuscode : ℕ
  pub agclevel : ℕ
  pub chargepump : Bool
  pub clocksource : ℕ
  pub local_oscillator : ℕ

pub record Link : Type 0 where
  pub config : Config
  pub firmware : Firmware
  pub nchannels : ℕ
  pub sweep_rate : ℕ
  pub running : Bool
  pub rx : List ℕ
  pub emitted : List (List ℕ)
  pub calls : ℕ
  pub log : List Op

-- `fatal` is the FatalInstrumentError, `no_answer` the RecoverableInstrumentError of the handshake,
-- `refused` the RuntimeError of `identify`, `misused` a ValueError or the RuntimeError of `start`, and
-- `unfinished` says that the fuel ran out.
pub data Fault : Type 0 where
  os_error fatal no_answer refused misused unfinished : Fault

pub data Outcome (A : Type 0) : Type 0 where
  done : A → Outcome A
  raised : Fault → Outcome A

abbrev pub Io : Type 0 → Type 0
Io A = Link → Outcome A × Link

module _ {A : Type 0} where
  unfoldable pub pure : A → Io A
  pure a s = (done a, s)

  unfoldable pub raise : Fault → Io A
  raise e s = (raised e, s)

  unfoldable pub gets : (Link → A) → Io A
  gets f s = (done (f s), s)

  -- `except OSError`: what has been done stays done.
  unfoldable pub attempt : Io A → Io (Option A)
  attempt m s =
      let (r, s') = m s in
      elim r [
        | done a ↦ (done (some a), s')
        | raised e ↦ elim e [ os_error ↦ (done none, s') | other ↦ (raised other, s') ]
      ]

unfoldable pub modify : (Link → Link) → Io (Unit {0})
modify f s = (done tt, f s)

module _ {A B : Type 0} where
  abbrev pub continue : Outcome A → (A → Io B) → Io B
  continue (done a) f s = f a s
  continue (raised e) f s = (raised e, s)

  infixl 5 ◌>>=◌ ◌>>◌
  unfoldable pub ◌>>=◌ : Io A → (A → Io B) → Io B
  ◌>>=◌ m f s = let (r, s') = m s in continue r f s'

  abbrev pub ◌>>◌ : Io A → Io B → Io B
  m >> k = m >>= λ _. k

abbrev pub called : Link → Link
called s = record s { calls = s.calls + 1 }

module _ (dev : Device) where
  unfoldable pub conn_write : List ℕ → Io (Unit {0})
  conn_write bytes s =
      let s' = record s { calls = s.calls + 1; log = s.log ++ wrote bytes ∷ [] } in
      (if dev.write_fails s.calls then raised os_error else done tt, s')

  unfoldable pub conn_close : Io (Unit {0})
  conn_close s =
      let s' = record s { calls = s.calls + 1; log = s.log ++ closing ∷ [] } in
      (if dev.close_fails s.calls then raised os_error else done tt, s')

  unfoldable pub conn_read : Io (List ℕ)
  conn_read s =
      let s' = record s { calls = s.calls + 1; log = s.log ++ reading ∷ [] } in
      (elim (dev.reply s.calls) [ chunk bytes ↦ done bytes | failed ↦ raised os_error ], s')

  -- `time.monotonic()`
  unfoldable pub monotonic : Io ℕ
  monotonic s = (done (dev.clock s.calls), called s)

  -- `self._running`, after what another thread may have done to it
  unfoldable pub still_running : Io Bool
  still_running s =
      let on = s.running && not (dev.stopped s.calls) in
      (done on, record (called s) { running = on })

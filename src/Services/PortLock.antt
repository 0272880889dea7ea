-- ===== src/Services/PortLock.antt =====
-- The lock on one instrument's port, src/ecallisto_ng/services/port_lock.py: a `flock` that every
-- thread and process takes without waiting. An actor is one call of `hold` or `is_busy`, and the
-- calls of all actors interleave; that an actor's process dies is a `leave`, since the kernel then
-- closes its file.
use e_callisto_ng.Prelude.{ℕ, ◌≡◌, Bool, true, false, Option, none, some, put, ◌==◌, if◌then◌else◌}
pub mod Exclusion

pub data Pc : Type 0 where
  -- away; before the `flock` of `hold` or `is_busy`; in the body of `hold`; between the two calls
  -- of `flock` in `is_busy`
  out holding_next asking_next inside probing : Pc

pub record System : Type 0 where
  pub owner : Option ℕ
  pub pc : ℕ → Pc

abbrev pub init : System
init = record { owner = none; pc = λ a. out }

abbrev stepped : ℕ → Pc → Option ℕ → System → System
stepped a p o s = record { owner = o; pc = put s.pc a p }

abbrev take_if_free : Option ℕ → ℕ → Pc → System → Bool × System
take_if_free none a p s = (true, stepped a p (some a) s)
take_if_free (some b) a p s = (false, stepped a out (some b) s)

-- False is `InstrumentBusy`.
unfoldable pub try_hold : ℕ → System → Bool × System
try_hold a s = take_if_free s.owner a inside s

-- False is the answer that the port is busy.
unfoldable pub try_probe : ℕ → System → Bool × System
try_probe a s = take_if_free s.owner a probing s

-- `LOCK_UN`, and the file is closed.
unfoldable pub release : ℕ → System → System
release a s = stepped a out none s

pub data Step (s : System) : System → Type 0 where
  enter_hold : (a : ℕ) → s.pc a ≡ out → Step s (stepped a holding_next s.owner s)
  enter_probe : (a : ℕ) → s.pc a ≡ out → Step s (stepped a asking_next s.owner s)
  hold : (a : ℕ) → s.pc a ≡ holding_next → Step s (try_hold a s).1
  probe : (a : ℕ) → s.pc a ≡ asking_next → Step s (try_probe a s).1
  leave : (a : ℕ) → s.pc a ≡ inside → Step s (release a s)
  answer : (a : ℕ) → s.pc a ≡ probing → Step s (release a s)

pub data Reach : System → Type 0 where
  start : Reach init
  later : {s t : System} → Reach s → Step s t → Reach t

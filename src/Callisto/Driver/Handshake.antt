-- ===== src/Callisto/Driver/Handshake.antt =====
-- driver.py, the handshake of `CallistoDriver`: `identify` and `configure`, which wait for what the
-- device answers under a deadline. The fuel counts the turns of one wait.
pub mod Deadline
pub mod Program
mod Tests
use e_callisto_ng.Prelude.{
  ℕ, zero, suc, ◌+◌, Bool, not, Option, none, some, List, [], ◌∷◌, ◌++◌, length, if◌then◌else◌, ltb,
  ◌==◌,
}
use e_callisto_ng.Prelude.Text.{same_text}
use e_callisto_ng.Callisto.Protocol.{
  channel_command, detect_firmware, eeprom_ready, id_query, id_response, cr, init_commands,
  status_query,
}
use e_callisto_ng.Callisto.Driver.Monad.{
  Device, Io, Link, conn_write, gets, modify, monotonic, misused, no_answer, pure, raise, refused,
  unfinished, ◌>>=◌, ◌>>◌,
}
use e_callisto_ng.Callisto.Driver.{fill, pixel_rate, write_all}

-- milliseconds
abbrev pub handshake_timeout : ℕ
handshake_timeout = 5_000

abbrev pub with_first : ℕ → Option (List ℕ × List ℕ) → Option (List ℕ × List ℕ)
with_first c none = none
with_first c (some (before, after)) = some (c ∷ before, after)

-- What stands before the first such byte, and after it: `find`, and the two slices.
abbrev pub cut_at : ℕ → List ℕ → Option (List ℕ × List ℕ)
cut_at b [] = none
cut_at b (c ∷ cs) = let rest = with_first c (cut_at b cs) in if c == b then some ([], cs) else rest

-- `decode("ascii", "replace")`
abbrev pub ascii : List ℕ → List ℕ
ascii [] = []
ascii (c ∷ cs) = (if ltb c 128 then c else 65_533) ∷ ascii cs

module _ (dev : Device) where
  -- A found marker ends the wait with what stood before it; else there is one more read.
  abbrev pub found_or : Option (List ℕ × List ℕ) → Io (List ℕ) → Io (List ℕ)
  found_or none again = fill dev >> again
  found_or (some (before, after)) again = do modify (λ s. record s { rx = after }); pure before

  -- The loop that `_read_line` and `_wait_for` share, until a deadline.
  unfoldable pub until_marker : ℕ → ℕ → ℕ → Io (List ℕ)
  until_marker zero marker deadline = raise unfinished
  until_marker (suc fuel) marker deadline =
      let again = until_marker fuel marker deadline in
      do
        t ← monotonic dev
        s ← gets (λ s. s)
        if ltb t deadline then found_or (cut_at marker s.rx) again else raise no_answer

  unfoldable pub wait_for : ℕ → ℕ → Io (List ℕ)
  wait_for fuel marker = do t ← monotonic dev; until_marker fuel marker (t + handshake_timeout)

  unfoldable pub read_line : ℕ → Io (List ℕ)
  read_line fuel = do line ← wait_for fuel 13; pure (ascii line)

  unfoldable pub read_status : ℕ → Io (Unit {0})
  read_status fuel = do
    conn_write dev status_query
    status ← read_line fuel
    modify (λ s. record s { firmware = detect_firmware status })

  unfoldable pub identify : ℕ → Io (Unit {0})
  identify fuel = do
    conn_write dev id_query
    line ← read_line fuel
    if same_text (line ++ cr) id_response then read_status fuel else raise refused

  -- One turn of the loop over the channels, the frequencies in kilohertz.
  unfoldable pub program : ℕ → ℕ → ℕ → Io (List ℕ)
  program fuel index freq = do
    s ← gets (λ s. s)
    conn_write dev
        (channel_command index freq s.firmware s.config.local_oscillator s.config.chargepump)
    wait_for fuel eeprom_ready

  unfoldable pub program_all : ℕ → ℕ → List ℕ → Io (Unit {0})
  program_all fuel index [] = pure tt
  program_all fuel index (freq ∷ freqs) =
      let others = program_all fuel (index + 1) freqs in do program fuel index freq; others

  unfoldable pub initialise : Io (Unit {0})
  initialise = do
    s ← gets (λ s. s)
    write_all dev
        (init_commands s.config.clocksource (pixel_rate s) s.config.agclevel s.config.chargepump)

  unfoldable pub configure : ℕ → List ℕ → ℕ → Io (Unit {0})
  configure fuel [] rate = raise misused
  configure fuel (freq ∷ freqs) rate = do
    modify (λ s. record s { nchannels = length (freq ∷ freqs); sweep_rate = rate })
    program_all fuel 0 (freq ∷ freqs)
    initialise

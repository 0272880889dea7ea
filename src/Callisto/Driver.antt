-- ===== src/Callisto/Driver.antt =====
-- driver.py, the streaming part of `CallistoDriver` and the writes of its lifecycle. The device, the
-- clock and the other thread that may call `stop` are a parameter: what each answers, by the number
-- of calls made to it so far. Times are milliseconds, rates thousandths of a hertz.
pub mod Monad
pub mod Quiet
pub mod Budget
pub mod Drain
pub mod Handshake
mod Tests
use e_callisto_ng.Prelude.{
  ℕ, zero, suc, ◌+◌, ◌-◌, ◌*◌, ◌/◌, ◌%◌, ◌≤◌, max, Bool, true, false, not, ◌&&◌, Option, none, some,
  List, [], ◌∷◌, ◌++◌, length, if◌then◌else◌, ltb, leb, ◌==◌,
}
use e_callisto_ng.Prelude.Text.{codes, occurs}
use e_callisto_ng.Window.{expire}
use e_callisto_ng.Callisto.Protocol.{
  Firmware, reset, stop_command, halt_command, init_commands, start_commands,
}
use e_callisto_ng.Callisto.Parser.{Item, parsed_message, parsed_sweep, StreamParser, Fed, new, feed}
use Monad.{
  Device, Config, Link, Op, wrote, reading, closing, warned, Outcome, done, raised, os_error, fatal,
  misused, unfinished, called, Io, pure, raise, gets, modify, attempt, ◌>>=◌, ◌>>◌, conn_write,
  conn_read, conn_close, monotonic, still_running,
}

abbrev pub reset_window : ℕ
reset_window = 60_000

abbrev pub reset_budget : ℕ
reset_budget = 3

abbrev pub min_no_data : ℕ
min_no_data = 3_000

abbrev pub stall_sweeps : ℕ
stall_sweeps = 5

-- `round(x)` of a number of thousandths, to the even neighbour of a tie.
abbrev pub round_milli : ℕ → ℕ
round_milli x =
    let up = if ltb 500 (x % 1000) then 1 else if x % 1000 == 500 then x / 1000 % 2 else 0 in
    x / 1000 + up

-- `max(int(round(sweeps_per_second * nchannels)), 1)`
unfoldable pub pixel_rate : Link → ℕ
pixel_rate s = max (round_milli (s.sweep_rate * s.nchannels)) 1

-- `_no_data_timeout`: whole milliseconds, which decide the comparison with whole milliseconds.
unfoldable pub no_data_timeout : Link → ℕ
no_data_timeout s = max min_no_data (stall_sweeps * 1_000_000 / max s.sweep_rate 100)

-- The variables of `stream`.
pub record Loop : Type 0 where
  pub parser : StreamParser
  pub last_frame : ℕ
  pub resets : List ℕ

abbrev pub or_misused : Option StreamParser → Io StreamParser
or_misused none = raise misused
or_misused (some p) = pure p

module _ (dev : Device) where
  pub write_all : List (List ℕ) → Io (Unit {0})
  write_all [] = pure tt
  write_all (cmd ∷ cmds) = do conn_write dev cmd; write_all cmds

  -- `_fill`
  unfoldable pub fill : Io ℕ
  fill = do
    bytes ← conn_read dev
    modify (λ s. record s { rx = s.rx ++ bytes })
    pure (length bytes)

  -- `_read_chunk`
  pub read_chunk : Io (List ℕ)
  read_chunk = do fill; chunk ← gets (λ s. s.rx); modify (λ s. record s { rx = [] }); pure chunk

  -- `_drain`, for a number of reads at most
  unfoldable pub drain : ℕ → Io (Unit {0})
  drain zero = raise unfinished
  drain (suc fuel) =
      let again = drain fuel in
      do n ← fill; if n == 0 then pure tt else (modify (λ s. record s { rx = [] }) >> again)

  -- `_soft_reset`
  pub soft_reset : ℕ → Io (Unit {0})
  soft_reset fuel = do
    conn_write dev reset
    drain fuel
    s ← gets (λ s. s)
    write_all
        (init_commands s.config.clocksource (pixel_rate s) s.config.agclevel s.config.chargepump)
    conn_write dev (start_commands s.config.focuscode s.nchannels)

  -- `_reopen`
  pub reopen : ℕ → Io (Unit {0})
  reopen fuel = do attempt (conn_close dev); soft_reset fuel

  pub make_parser : Io StreamParser
  make_parser = do s ← gets (λ s. s); or_misused (new s.nchannels s.firmware.data10bit)

  -- `_recover` after its budget check
  pub rearm : ℕ → ℕ → List ℕ → Io (StreamParser × List ℕ)
  rearm fuel now kept = do
    let escalate = leb 1 (length kept)
    modify (λ s. record s { log = s.log ++ warned escalate now ∷ [] })
    attempt (if escalate then reopen fuel else soft_reset fuel)
    p ← make_parser
    pure (p, kept ++ now ∷ [])

  -- `_recover`, with the deque as argument and result
  pub recover : ℕ → List ℕ → Io (StreamParser × List ℕ)
  recover fuel resets = do
    now ← monotonic dev
    let kept = expire reset_window now resets
    if leb reset_budget (length kept)
        then (modify (λ s. record s { running = false }) >> raise fatal)
        else rearm fuel now kept

  -- The two lines that follow each fault in `stream`.
  pub recovered : ℕ → Loop → Io Loop
  recovered fuel l = do
    (p, resets) ← recover fuel l.resets
    t ← monotonic dev
    pure (record { parser = p; last_frame = t; resets = resets })

  -- `for item in items`
  pub deliver : List Item → Loop → Io Loop
  deliver [] l = pure l
  deliver (parsed_sweep values ∷ items) l = do
    t ← monotonic dev
    modify (λ s. record s { emitted = s.emitted ++ values ∷ [] })
    deliver items (record l { last_frame = t })
  deliver (parsed_message text ∷ items) l = do
    modify (λ s. record s { running = s.running && not (occurs (codes "Stopped") text) })
    deliver items l

  stall_test : ℕ → Loop → Io Loop
  stall_test fuel l = do
    t ← monotonic dev
    bound ← gets no_data_timeout
    if ltb (l.last_frame + bound) t then recovered fuel l else pure l

  -- The end of a round: recover if no frame has come for too long.
  pub stall_check : ℕ → Loop → Io Loop
  stall_check fuel l = do on ← still_running dev; if on then stall_test fuel l else pure l

  -- What the parser made of a chunk, and the sample that it raised on, if any.
  pub after_feed : ℕ → Loop → Fed → Option ℕ → Io Loop
  after_feed fuel l fed (some v) = recovered fuel l
  after_feed fuel l fed none = do
    l' ← deliver fed.items (record l { parser = fed.parser })
    stall_check fuel l'

  pub chunk_round : ℕ → Loop → List ℕ → Io Loop
  chunk_round fuel l [] = stall_check fuel l
  chunk_round fuel l (b ∷ bytes) =
      let fed = feed l.parser (b ∷ bytes) in after_feed fuel l fed fed.raised

  pub after_read : ℕ → Loop → Option (List ℕ) → Io Loop
  after_read fuel l none = recovered fuel l
  after_read fuel l (some bytes) = chunk_round fuel l bytes

  -- The body of the loop of `stream`.
  pub one_round : ℕ → Loop → Io Loop
  one_round fuel l = do bytes ← attempt read_chunk; after_read fuel l bytes

  -- `stream`, for a number of rounds at most: what it yields is `emitted`.
  pub stream_loop : ℕ → ℕ → Loop → Io Loop
  stream_loop zero fuel l = raise unfinished
  stream_loop (suc rounds) fuel l =
      let again = stream_loop rounds fuel in
      do on ← still_running dev; if on then one_round fuel l >>= again else pure l

  pub stream : ℕ → ℕ → Io Loop
  stream rounds fuel = do
    p ← make_parser
    t ← monotonic dev
    stream_loop rounds fuel (record { parser = p; last_frame = t; resets = [] })

  -- `connect`, `start`, `stop` and `close`
  unfoldable pub connect : ℕ → Io (Unit {0})
  connect fuel = do conn_write dev reset; drain fuel

  pub start : Io (Unit {0})
  start = do
    s ← gets (λ s. s)
    if ltb s.nchannels 1 then raise misused else do
      conn_write dev (start_commands s.config.focuscode s.nchannels)
      modify (λ s. record s { running = true })

  pub stop : Io (Option (Unit {0}))
  stop = do modify (λ s. record s { running = false }); attempt (conn_write dev stop_command)

  unfoldable pub close : Io (Unit {0})
  close = do
    modify (λ s. record s { running = false })
    attempt (conn_write dev halt_command)
    conn_close dev

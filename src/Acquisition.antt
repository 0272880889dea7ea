-- ===== src/Acquisition.antt =====
-- src/ecallisto_ng/services/acquisition.py and watchdog.py: the loops that join a driver to a writer. The driver is a
-- parameter: which of its calls raise, the frames that its stream yields, and whether the
-- stream then ends or raises. So is the writer: which files it fails to write. The callbacks are
-- events in the list of what was called; they do not raise.
pub mod Slices
pub mod Cleanup
mod Tests
use mathlib.Core.Option
use e_callisto_ng.Prelude.{
  ℕ, zero, suc, ◌+◌, ◌<◌, Bool, true, false, ◌&&◌, ◌||◌, Option, none, some, List, [], ◌∷◌, ◌++◌,
  length, ltb, if◌then◌else◌,
}
use e_callisto_ng.Prelude.Int.{ℤ, pos, ltb_ℤ}

pub record SpectrumFrame : Type 0 where
  pub timestamp : ℕ
  pub values : List ℤ

pub record Watchdog : Type 0 where
  pub max_value : ℤ

-- `Watchdog.check` gives a reason exactly where this is true.
unfoldable pub check : Watchdog → List ℤ → Bool
check w [] = false
check w (v ∷ vs) = ltb_ℤ v (pos 0) || ltb_ℤ w.max_value v || check w vs

unfoldable pub flagged : Option Watchdog → SpectrumFrame → Bool
unfolding check
flagged none f = false
flagged (some w) f = check w f.values

pub data Error : Type 0 where
  -- raised by the driver, the writer, for an argument, and as `DataLossError`
  driver_error writer_error bad_argument data_loss : Error

pub data Act : Type 0 where
  connect identify configure start stop close : Act
  published : SpectrumFrame → Act
  lost : Act
  filed : List SpectrumFrame → Act

pub record Driver : Type 0 where
  pub connect_fails : Bool
  pub identify_fails : Bool
  pub configure_fails : Bool
  pub start_fails : Bool
  pub frames : List SpectrumFrame
  pub stream_raises : Bool
  -- `stop` writes to the connection, which the FPGA receiver does unguarded
  pub stop_fails : Bool
  pub close_fails : Bool

-- What a run did, and how it ended; a file is the list of its frames.
pub record Run : Type 0 where
  pub files : List (List SpectrumFrame)
  pub acts : List Act
  pub error : Option Error

pub data BatchEnd : Type 0 where
  full exhausted corrupt : BatchEnd

pub record Batch : Type 0 where
  pub collected : List SpectrumFrame
  pub acts : List Act
  pub ended : BatchEnd
  pub rest : List SpectrumFrame

abbrev taking : SpectrumFrame → Batch → Batch
taking f b = record b { collected = f ∷ b.collected; acts = published f ∷ b.acts }

-- `for frame in itertools.islice(stream, n)`
unfoldable pub batch : Option Watchdog → ℕ → List SpectrumFrame → Batch
unfolding flagged
batch wd zero fs = record { collected = []; acts = []; ended = full; rest = fs }
batch wd (suc n) [] = record { collected = []; acts = []; ended = exhausted; rest = [] }
batch wd (suc n) (f ∷ fs) =
    let more = batch wd n fs in
    if flagged wd f
    then record { collected = []; acts = lost ∷ []; ended = corrupt; rest = fs }
    else taking f more

-- The four calls before the stream, up to the first that raises.
unfoldable pub handshake : Driver → List Act × Bool
handshake d =
    if d.connect_fails
    then (connect ∷ [], true)
    else if d.identify_fails
    then (connect ∷ identify ∷ [], true)
    else if d.configure_fails
    then (connect ∷ identify ∷ configure ∷ [], true)
    else (connect ∷ identify ∷ configure ∷ start ∷ [], d.start_fails)

-- The `finally` block: `stop`, and `close` if it returns. What it raises replaces what was raised.
abbrev pub cleanup_acts : Driver → List Act
cleanup_acts d = if d.stop_fails then stop ∷ [] else stop ∷ close ∷ []

abbrev pub cleanup : Driver → Run → Run
cleanup d r = record r {
  acts = r.acts ++ cleanup_acts d;
  error = if d.stop_fails || d.close_fails then some driver_error else r.error;
}

abbrev pub with_acts : List Act → Run → Run
with_acts acts r = record r { acts = acts ++ r.acts }

abbrev pub failed : Error → Run
failed e = record { files = []; acts = []; error = some e }

-- The inner `finally` of `record_continuous`: what was collected is flushed, if it is anything.
unfoldable pub flush : (List SpectrumFrame → Bool) → List SpectrumFrame → Run
flush writes [] = record { files = []; acts = []; error = none }
flush writes (f ∷ fs) =
    if writes (f ∷ fs)
    then record { files = (f ∷ fs) ∷ []; acts = filed (f ∷ fs) ∷ []; error = none }
    else failed writer_error

abbrev pub then_run : Run → Run → Run
then_run r next = elim r.error [
  | some e ↦ r
  | none ↦ record { files = r.files ++ next.files; acts = r.acts ++ next.acts; error = next.error }
]

module _ (writes : List SpectrumFrame → Bool) (wd : Option Watchdog) where
  -- `record`, from the stream on
  unfoldable pub record_stream : Driver → ℕ → Run
  unfolding batch
  record_stream d max_frames =
      let b = batch wd max_frames d.frames in
      elim b.ended [
        | exhausted ↦
            if d.stream_raises
            then record { files = []; acts = b.acts; error = some driver_error }
            else record { files = b.collected ∷ []; acts = b.acts; error = none }
        | other ↦ record { files = b.collected ∷ []; acts = b.acts; error = none }
      ]

  -- The product is written after the `finally` block.
  unfoldable pub write_collected : Run → Run
  write_collected r = elim r.error [
    | some e ↦ record r { files = [] }
    | none ↦ elim r.files [
      | [] ↦ record r { error = some data_loss }
      | f ∷ fs ↦ elim f [
        | [] ↦ record r { files = []; error = some data_loss }
        | x ∷ xs ↦ if writes (x ∷ xs) then r else record r { files = []; error = some writer_error }
      ]
    ]
  ]

  unfoldable pub record_bounded : Driver → ℕ → Run
  unfolding record_stream write_collected handshake
  record_bounded d max_frames =
      if ltb max_frames 1
      then failed bad_argument
      else let (acts, raises) = handshake d in
        if raises
        then cleanup d (with_acts acts (failed driver_error))
        else write_collected (cleanup d (with_acts acts (record_stream d max_frames)))

  -- What follows a batch: its flush, and then the stream's own exception, the end, or the next files,
  -- `none` if the fuel ran out on those.
  unfoldable pub roll_on : Driver → Batch → BatchEnd → Option Run → Option Run
  unfolding flush
  roll_on d b corrupt next = some (with_acts b.acts (flush writes b.collected))
  roll_on d b exhausted next =
      if d.stream_raises
      then some (with_acts b.acts (then_run (flush writes b.collected) (failed driver_error)))
      else some (with_acts b.acts (flush writes b.collected))
  roll_on d b full next = elim (flush writes b.collected).error [
    | some e ↦ some (with_acts b.acts (flush writes b.collected))
    | none ↦ Option.map (λ r. with_acts b.acts (then_run (flush writes b.collected) r)) next
  ]

  -- `while True`
  unfoldable pub rolling : Driver → ℕ → ℕ → List SpectrumFrame → Option Run
  unfolding batch roll_on
  rolling d per_file zero fs = none
  rolling d per_file (suc fuel) fs =
      let b = batch wd per_file fs in
      let next = rolling d per_file fuel b.rest in roll_on d b b.ended next

  unfoldable pub record_continuous : ℕ → Driver → ℕ → Option Run
  unfolding rolling handshake
  record_continuous fuel d per_file =
      if ltb per_file 1
      then some (failed bad_argument)
      else let (acts, raises) = handshake d in
        if raises
        then some (cleanup d (with_acts acts (failed driver_error)))
        else elim (rolling d per_file fuel d.frames) [
          | none ↦ none
          | some r ↦ some (cleanup d (with_acts acts r))
        ]

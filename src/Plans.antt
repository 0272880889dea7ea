-- ===== src/Plans.antt =====
-- What an instrument records: its channels, src/ecallisto_ng/services/channels.py, and its
-- calibration, src/ecallisto_ng/services/calibration_build.py, as the scheduler puts them together
-- and `_calibrate` of src/ecallisto_ng/writers/fits/standard.py uses them. Frequencies are kilohertz.
-- Programs are kept decoded. Reading the coefficients from their JSON text is a parameter, and so
-- are the two formulas of core/calibration.py, which are floating-point logarithms.
use e_callisto_ng.Prelude.{
  ℕ, zero, suc, ◌+◌, ◌*◌, Bool, true, false, not, Option, none, some, List, [], ◌∷◌, length,
  get_elem?, replicate, if◌then◌else◌, ◌==◌, ◌||◌,
}
use e_callisto_ng.Prelude.Text.{codes, same_text}
pub mod Calibrated
mod Tests

pub record Channel : Type 0 where
  pub frequency : ℕ
  pub light_curve : Bool

pub record FrequencyProgram : Type 0 where
  pub frequencies : List ℕ
  pub light_curve_indices : List ℕ

-- The columns of the instrument's row that are used here.
pub record Instrument : Type 0 where
  pub channels : ℕ
  pub unit : List ℕ
  pub program_id : Option ℕ
  pub calibration_set_id : Option ℕ

pub record Store : Type 0 where
  pub programs : ℕ → Option FrequencyProgram
  pub coefficients : ℕ → Option (List ℕ)

abbrev pub is_in : ℕ → List ℕ → Bool
is_in i [] = false
is_in i (j ∷ js) = i == j || is_in i js

-- From the index `i` on.
abbrev pub flagged_channels : List ℕ → ℕ → List ℕ → List Channel
flagged_channels lc i [] = []
flagged_channels lc i (f ∷ fs) =
    record { frequency = f; light_curve = is_in i lc } ∷ flagged_channels lc (i + 1) fs

abbrev pub channels_of : Option FrequencyProgram → List Channel
channels_of none = []
channels_of (some p) = flagged_channels p.light_curve_indices 0 p.frequencies

-- `_program_channels`; no channels stand for None, as both are false.
unfoldable pub program_channels : Store → Option ℕ → List Channel
program_channels db none = []
program_channels db (some id) = channels_of (db.programs id)

-- `n` channels of the ramp, from the index `i` on.
abbrev pub ramp : ℕ → ℕ → List Channel
ramp i zero = []
ramp i (suc n) = record { frequency = 45_000 + 1_000 * i; light_curve = false } ∷ ramp (i + 1) n

abbrev pub or_next : List Channel → List Channel → List Channel
or_next [] others = others
or_next (c ∷ cs) others = c ∷ cs

unfoldable pub resolve_channels : Store → Instrument → Option ℕ → List Channel
resolve_channels db inst override =
    or_next (program_channels db override)
      (or_next (program_channels db inst.program_id) (ramp 0 inst.channels))

pub data UnitLevel : Type 0 where
  raw decibel sfu kelvin : UnitLevel

-- `UnitLevel(unit_str)`, or raw
abbrev pub read_unit : List ℕ → UnitLevel
read_unit text =
    if same_text text (codes "db")
    then decibel
    else if same_text text (codes "sfu")
    then sfu
    else if same_text text (codes "kelvin")
    then kelvin
    else raw

module _ {ℓ} {ChannelCal : Type ℓ} where
  -- `none` is the ValueError.
  unfoldable pub build_calibration : List ChannelCal → ℕ → Option (List ChannelCal)
  build_calibration [] n = none
  build_calibration (c ∷ []) n = some (replicate n c)
  build_calibration (c ∷ d ∷ cs) n = if length (c ∷ d ∷ cs) == n then some (c ∷ d ∷ cs) else none

  abbrev pub calibrated_as :
      UnitLevel → Option (List ChannelCal) → Option (UnitLevel × Option (List ChannelCal))
  calibrated_as unit none = none
  calibrated_as unit (some cal) = some (unit, some cal)

  abbrev pub built : Option (List ChannelCal) → ℕ → Option (List ChannelCal)
  built none n = none
  built (some rows) n = build_calibration rows n

  module _ (decode : List ℕ → Option (List ChannelCal)) where
    abbrev pub resolve_unit :
        UnitLevel → Option (List ℕ) → ℕ → Option (UnitLevel × Option (List ChannelCal))
    resolve_unit raw text n = some (raw, none)
    resolve_unit unit none n = some (raw, none)
    resolve_unit unit (some []) n = some (raw, none)
    resolve_unit unit (some (c ∷ cs)) n = calibrated_as unit (built (decode (c ∷ cs)) n)

    -- `resolve`; `none` is a ValueError or what a malformed text raises.
    unfoldable pub resolve :
        List ℕ → Option (List ℕ) → ℕ → Option (UnitLevel × Option (List ChannelCal))
    resolve unit_str text n = resolve_unit (read_unit unit_str) text n

    abbrev pub set_text : Store → Option ℕ → Option (List ℕ)
    set_text db none = none
    set_text db (some id) = db.coefficients id

    -- `_calibration` of the scheduler, `_instrument_calibration` of the route.
    unfoldable pub instrument_calibration :
        Store → Instrument → Option (UnitLevel × Option (List ChannelCal))
    instrument_calibration db inst =
        resolve inst.unit (set_text db inst.calibration_set_id) inst.channels

  abbrev pub applied :
      (ℕ → ChannelCal → ℕ) → ℕ → Option ChannelCal → Option (List ℕ) → Option (List ℕ)
  applied f v (some c) (some rest) = some (f v c ∷ rest)
  applied f v _ _ = none

  -- The comprehension, from the index `i` on; `none` is the IndexError.
  abbrev pub each : (ℕ → ChannelCal → ℕ) → List ChannelCal → ℕ → List ℕ → Option (List ℕ)
  each f coeffs i [] = some []
  each f coeffs i (v ∷ vs) = applied f v (get_elem? coeffs i) (each f coeffs (i + 1) vs)

  -- `_calibrate` of the writer
  unfoldable pub calibrate :
      (ℕ → ChannelCal → ℕ)
      → (ℕ → ChannelCal → ℕ)
      → UnitLevel
      → Option (List ChannelCal)
      → List ℕ
      → Option (List ℕ)
  calibrate to_sfu to_kelvin raw cal values = some values
  calibrate to_sfu to_kelvin unit none values = some values
  calibrate to_sfu to_kelvin sfu (some coeffs) values = each to_sfu coeffs 0 values
  calibrate to_sfu to_kelvin kelvin (some coeffs) values = each to_kelvin coeffs 0 values
  calibrate to_sfu to_kelvin decibel (some coeffs) values = some values

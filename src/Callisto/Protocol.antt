-- ===== src/Callisto/Protocol.antt =====
-- protocol.py, the pure serial protocol. Texts and byte strings are lists of byte values.
-- Frequencies are whole kilohertz, so that the synthesizer step of 0.0625 MHz is 125 / 2 and the
-- divider is a division of natural numbers; the rounding of binary floats is not modelled.
pub mod Wire
mod Tests
use Prim.Native.Nat.{bit_or}
use Prim.Native.String.{String}
use e_callisto_ng.Prelude.{
  ℕ, zero, suc, ◌+◌, ◌-◌, ◌*◌, ◌/◌, ◌%◌, ◌^◌, ◌≤◌, min, max, Bool, true, false, Option, none, some,
  List, [], ◌∷◌, ◌++◌, if◌then◌else◌, ltb, leb, ◌==◌,
}
use e_callisto_ng.Prelude.Decimal.{decimal, padded}
use e_callisto_ng.Prelude.Int.{ℤ, pos, negsuc, pos_part}
use e_callisto_ng.Prelude.Text.{codes, occurs}

abbrev pub low_band : ℕ
low_band = 171_000

abbrev pub mid_band : ℕ
mid_band = 450_000

abbrev pub control_base : ℕ
control_base = 0x86

abbrev pub control_chargepump : ℕ
control_chargepump = 0x40

abbrev pub message_start : ℕ
message_start = b'$'

abbrev pub message_end : ℕ
message_end = 13

abbrev pub data_start : ℕ
data_start = b'2'

abbrev pub data_end : ℕ
data_end = b'&'

abbrev pub eeprom_ready : ℕ
eeprom_ready = b']'

abbrev pub end_marker : ℕ
end_marker = 0x2323

abbrev pub cr : List ℕ
cr = 13 ∷ []

abbrev pub reset : List ℕ
reset = codes "D0" ++ (cr ++ (codes "GD" ++ (cr ++ (codes "S0" ++ cr))))

abbrev pub id_query : List ℕ
id_query = codes "S0" ++ cr

abbrev pub id_response : List ℕ
id_response = codes "$CRX:Stopped" ++ cr

abbrev pub status_query : List ℕ
status_query = codes "?" ++ cr

abbrev pub stop_command : List ℕ
stop_command = codes "GD" ++ cr

abbrev pub halt_command : List ℕ
halt_command = codes "S0" ++ cr

pub record Firmware : Type 0 where
  pub version : String
  pub if_init : ℕ
  pub data10bit : Bool
  pub eeprom_info : Bool

abbrev pub firmware_15 : Firmware
firmware_15 = record { version = "1.5"; if_init = 37_700; data10bit = false; eeprom_info = false }

abbrev pub firmware_17 : Firmware
firmware_17 = record { version = "1.7"; if_init = 37_700; data10bit = true; eeprom_info = false }

abbrev pub firmware_18 : Firmware
firmware_18 = record { version = "1.8"; if_init = 36_130; data10bit = true; eeprom_info = true }

abbrev pub firmware_default : Firmware
firmware_default = record {
  version = "default";
  if_init = 37_700;
  data10bit = true;
  eeprom_info = false;
}

unfoldable pub detect_firmware : List ℕ → Firmware
detect_firmware line =
    if occurs (codes "ChargePump") line
    then firmware_15
    else if occurs (codes "V1.8") line
    then firmware_18
    else if occurs (codes "Debug") line
    then firmware_17
    else firmware_default

unfoldable pub band_for : ℕ → ℕ
band_for freq = if leb freq low_band then 1 else if leb freq mid_band then 2 else 4

-- `int((freq + if_init) / 0.0625)`, in kilohertz
abbrev pub divider : ℕ → ℕ → ℕ
divider freq if_init = (freq + if_init) * 2 / 125

-- `(divider >> 8) & 0xFF, divider & 0xFF`
unfoldable pub divider_bytes : ℕ → ℕ → ℕ × ℕ
divider_bytes freq if_init = (divider freq if_init / 256 % 256, divider freq if_init % 256)

-- `abs(a - b)`
abbrev pub distance : ℕ → ℕ → ℕ
distance a b = if leb b a then a - b else b - a

unfoldable pub control_byte : Firmware → Bool → ℕ
control_byte firmware chargepump =
    if firmware.data10bit
    then bit_or control_base control_chargepump
    else bit_or control_base (if chargepump then control_chargepump else 0)

unfoldable pub channel_command : ℕ → ℕ → Firmware → ℕ → Bool → List ℕ
unfolding divider_bytes control_byte band_for
channel_command index freq firmware local_oscillator chargepump =
    let effective = distance freq local_oscillator in
    let (div_hi, div_lo) = divider_bytes effective firmware.if_init in
    codes "FE"
    ++ (decimal (index + 1)
        ++ (codes ","
            ++ (padded 3 div_hi
                ++ (codes ","
                    ++ (padded 3 div_lo
                        ++ (codes ","
                            ++ (padded 3 (control_byte firmware chargepump)
                                ++ (codes "," ++ (padded 3 (band_for effective) ++ cr)))))))))

-- `q - 1` in decimal; Python prints a negative result with its sign.
unfoldable pub decimal_pred : ℕ → ℕ → List ℕ
decimal_pred width zero = codes "-1"
decimal_pred width (suc q) = padded width q

unfoldable pub clock_command : ℕ → ℕ → Option (List ℕ)
unfolding decimal_pred
clock_command clocksource sample_rate_hz =
    let rate = max sample_rate_hz 1 in
    if clocksource == 1
    then some (codes "GS" ++ (decimal_pred 0 (86400 / rate) ++ cr))
    else if clocksource == 2
    then some (codes "GA" ++ (decimal_pred 0 (500000 / rate) ++ cr))
    else none

-- The bytes that `_soft_reset` and `configure` write one command at a time.
unfoldable pub init_commands : ℕ → ℕ → ℕ → Bool → List (List ℕ)
unfolding clock_command
init_commands clocksource sample_rate_hz agclevel chargepump =
    let setup =
      codes "T"
      ++ (decimal clocksource
          ++ (cr
              ++ (codes "O"
                  ++ (padded 3 agclevel
                      ++ (cr ++ (codes "C" ++ (decimal (if chargepump then 1 else 0) ++ cr))))))) in
    elim (clock_command clocksource sample_rate_hz) [
      | some clk ↦ clk ∷ setup ∷ []
      | none ↦ setup ∷ []
    ]

unfoldable pub start_commands : ℕ → ℕ → List ℕ
unfolding decimal_pred
start_commands focuscode nchannels =
    codes "FS"
    ++ (padded 2 focuscode
        ++ (decimal_pred 2 focuscode
            ++ (cr
                ++ (codes "L"
                    ++ (decimal nchannels ++ (cr ++ (codes "S1" ++ (cr ++ (codes "GE" ++ cr)))))))))

-- `F0%07.3f` of a frequency in kilohertz
unfoldable pub tune_command : ℕ → List ℕ
tune_command freq =
    codes "F0" ++ (padded 3 (freq / 1000) ++ (codes "." ++ (padded 3 (freq % 1000) ++ cr)))

unfoldable pub gain_command : ℤ → List ℕ
gain_command pwm = codes "O" ++ (padded 3 (min 255 (pos_part pwm)) ++ cr)

unfoldable pub relay_command : ℕ → List ℕ
relay_command relay = codes "fs" ++ (padded 2 (relay % 64) ++ cr)

-- `value >> 2` and `value & 0xFF`
unfoldable pub to_8bit : ℕ → Bool → ℕ
to_8bit value data10bit = if data10bit then value / 4 else value % 256

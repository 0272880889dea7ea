-- ===== src/Legacy/Tests.antt =====
-- A schedule of two entries and a program of two channels, written and read again.
use e_callisto_ng.Prelude.{ℕ, ◌+◌, ◌≤◌, ◌≡◌, refl, some, false, ◌%◌, List, [], ◌∷◌, arith}
use e_callisto_ng.Prelude.Text.{codes}
use e_callisto_ng.Prelude.Int.{pos, negsuc}
use e_callisto_ng.Prelude.Decimal.{decimal, digits_on, padded}
use e_callisto_ng.Legacy.{ExportEntry, build_scheduler_cfg, parse_scheduler_cfg, read_int}
use e_callisto_ng.Legacy.Schedule.{IsPlain, imported, parse_scheduler_cfg-build_scheduler_cfg}
use e_callisto_ng.Services.Windows.{crossing, crossings, events_of}
use e_callisto_ng.Legacy.Sun.{line_at, quantize_15, sun_entries}
use e_callisto_ng.Legacy.Sun.Quarter.{quantize_15_near}
use e_callisto_ng.Legacy.Program.{
  build_frequency_program_cfg, key_value, parse_frequency_program, sweeps_text,
}
use e_callisto_ng.Legacy.Program.Export.{parse_frequency_program-build_frequency_program_cfg}
use e_callisto_ng.Legacy.Program.Reading.{float}

abbrev evening : ExportEntry
evening = record { time_utc = codes "18:30"; focus_code = 59; mode = codes "0"; program = [] }

abbrev morning : ExportEntry
morning = record {
  time_utc = codes "06:05:30";
  focus_code = 1;
  mode = codes "3";
  program = codes "frq00012.cfg";
}

evening-IsPlain : IsPlain evening
evening-IsPlain = record {
  first = 49;
  others = codes "8:30";
  spelled = refl;
  begins = refl;
  time = refl;
  mode = 48;
  one = refl;
  mode_plain = refl;
  mode_shown = refl;
  mode_upper = refl;
  program = refl;
  program_left = refl;
  program_right = refl;
}

morning-IsPlain : IsPlain morning
morning-IsPlain = record {
  first = 48;
  others = codes "6:05:30";
  spelled = refl;
  begins = refl;
  time = refl;
  mode = 51;
  one = refl;
  mode_plain = refl;
  mode_shown = refl;
  mode_upper = refl;
  program = refl;
  program_left = refl;
  program_right = refl;
}

abbrev schedule : List ExportEntry
schedule = evening ∷ morning ∷ []

parse_scheduler_cfg-build_scheduler_cfg_example :
    parse_scheduler_cfg (build_scheduler_cfg schedule) ≡ imported morning ∷ imported evening ∷ []
parse_scheduler_cfg-build_scheduler_cfg_example =
    parse_scheduler_cfg-build_scheduler_cfg schedule (evening-IsPlain, (morning-IsPlain, tt))

read_int_signed : read_int (codes " -1_2 ") ≡ some (negsuc 11)
unfolding read_int
read_int_signed = refl

key_value_comment :
    key_value (codes "[External_LO]= 10.5 // kHz") ≡ some (codes "external_lo", codes "10.5")
unfolding key_value
key_value_comment = refl

sweeps_of_three : sweeps_text 3 ≡ codes "266.667"
unfolding sweeps_text padded decimal digits_on
sweeps_of_three = refl

abbrev two_channels : List ℕ
two_channels = 721 ∷ 16_000 ∷ []

-- 45.0625 MHz comes back as 45.062 MHz.
parse_frequency_program-build_frequency_program_cfg_example :
    parse_frequency_program (build_frequency_program_cfg 4 two_channels (0 ∷ []) 168)
    ≡ some (record {
      frequencies = float 45_062 ∷ float 1_000_000 ∷ [];
      sweeps_per_second = pos 400;
      local_oscillator = float 10_500;
    })
parse_frequency_program-build_frequency_program_cfg_example =
    parse_frequency_program-build_frequency_program_cfg 4 two_channels (0 ∷ []) 168 (omega arith)

-- A day whose Sun rises in the sample of 05:00, is highest at 12:10 and sets in that of 19:00.
abbrev samples : List (ℕ × ℕ)
samples =
    (14_400_000, 850_000)
    ∷ (18_000_000, 900_000)
    ∷ (43_800_000, 1_400_000)
    ∷ (68_400_000, 880_000)
    ∷ []

quantize_15_near_example :
    (quantize_15 43_800_000 % 900_000 ≡ 0)
    × (43_800_000 ≤ quantize_15 43_800_000 + 451_000)
    × (quantize_15 43_800_000 ≤ 43_800_000 + 451_000)
quantize_15_near_example = quantize_15_near 43_800_000

noon_quarter : quantize_15 43_800_000 ≡ 44_100_000
unfolding quantize_15
noon_quarter = refl

first_entry :
    sun_entries samples 59 0 false
    ≡ line_at 59 18_000_000 (codes "3")
      ∷ line_at 59 43_800_000 (codes "3")
      ∷ line_at 59 68_400_000 (codes "0")
      ∷ []
unfolding sun_entries events_of crossings crossing
first_entry = refl

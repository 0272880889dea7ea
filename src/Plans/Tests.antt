-- ===== src/Plans/Tests.antt =====
-- An instrument with 2 channels in its row, and a program of 3; a channel's coefficients are one
-- number here.
use e_callisto_ng.Prelude.{ℕ, ◌+◌, ◌≡◌, refl, false, Option, none, some, List, [], ◌∷◌}
use e_callisto_ng.Prelude.Text.{codes}
use e_callisto_ng.Plans.{
  FrequencyProgram, Instrument, Store, build_calibration, calibrate, instrument_calibration,
  program_channels, resolve, resolve_channels, sfu,
}
use e_callisto_ng.Plans.Calibrated.{calibrate_resolved, is_done}

abbrev three : FrequencyProgram
three = record { frequencies = 50_000 ∷ 60_000 ∷ 70_000 ∷ []; light_curve_indices = 1 ∷ [] }

abbrev store : Store
store = record { programs = λ id. some three; coefficients = λ id. some (codes "[7]") }

abbrev instrument : Instrument
instrument = record {
  channels = 2;
  unit = codes "sfu";
  program_id = some 1;
  calibration_set_id = some 1;
}

abbrev decode : List ℕ → Option (List ℕ)
decode text = some (7 ∷ [])

abbrev add : ℕ → ℕ → ℕ
add v c = v + c

calibrate_resolved_example :
    is_done (calibrate add add sfu (some (7 ∷ 7 ∷ [])) (1 ∷ 2 ∷ 3 ∷ [])) ≡ false
unfolding instrument_calibration resolve build_calibration resolve_channels program_channels
calibrate_resolved_example =
    calibrate_resolved decode add add store instrument none sfu (7 ∷ 7 ∷ []) (1 ∷ 2 ∷ 3 ∷ []) refl
      refl refl

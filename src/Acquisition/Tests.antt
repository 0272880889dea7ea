-- ===== src/Acquisition/Tests.antt =====
-- Recordings at concrete input.
use e_callisto_ng.Prelude.{
  ℕ, ◌≡◌, refl, Bool, true, false, Option, none, some, List, [], ◌∷◌, arith,
}
use e_callisto_ng.Prelude.Int.{pos}
use e_callisto_ng.Acquisition.{
  SpectrumFrame, Watchdog, check, flagged, data_loss, driver_error, connect, identify, stop, Driver,
  Run, batch, handshake, record_stream, write_collected, record_bounded, flush, roll_on, rolling,
  record_continuous,
}
use e_callisto_ng.Acquisition.Slices.{IsRolled, record_continuous_keeps}
use e_callisto_ng.Acquisition.Cleanup.{IsReleased, record_continuous_releases}

abbrev frame : ℕ → SpectrumFrame
frame v = record { timestamp = v; values = pos v ∷ [] }

abbrev five_frames : Driver
five_frames = record {
  connect_fails = false;
  identify_fails = false;
  configure_fails = false;
  start_fails = false;
  frames = frame 1 ∷ frame 2 ∷ frame 3 ∷ frame 4 ∷ frame 5 ∷ [];
  stream_raises = true;
  stop_fails = false;
  close_fails = false;
}

abbrev eight_bit : Option Watchdog
eight_bit = some (record { max_value = pos 255 })

abbrev always : List SpectrumFrame → Bool
always f = true

continuous_runs :
    (elim (record_continuous always eight_bit 9 five_frames 2) [ none ↦ [] | some r ↦ r.files ])
    ≡ (frame 1 ∷ frame 2 ∷ []) ∷ (frame 3 ∷ frame 4 ∷ []) ∷ (frame 5 ∷ []) ∷ []
unfolding record_continuous rolling roll_on flush batch flagged check handshake
continuous_runs = refl

-- No frame before the first corrupt one: no product.
nothing_recorded :
    (record_bounded always eight_bit (record five_frames { frames = frame 256 ∷ [] }) 2).error
    ≡ some data_loss
unfolding record_bounded record_stream write_collected batch flagged check handshake
nothing_recorded = refl

record_continuous_keeps_example :
    (r : Run) × (record_continuous always eight_bit 9 five_frames 2 ≡ some r)
    × IsRolled eight_bit false true 2 five_frames.frames r
unfolding handshake
record_continuous_keeps_example =
    record_continuous_keeps always eight_bit (λ f. refl) five_frames 2 (omega arith) 9 (omega arith)
      refl

-- A receiver that is gone: it does not answer the handshake, and cannot be stopped. Its port stays
-- open.
abbrev unplugged : Driver
unplugged = record five_frames { identify_fails = true; stop_fails = true }

abbrev unanswered : Run
unanswered = record { files = []; acts = connect ∷ identify ∷ stop ∷ []; error = some driver_error }

record_continuous_releases_example : IsReleased true unanswered.acts
unfolding record_continuous handshake
record_continuous_releases_example =
    record_continuous_releases always eight_bit unplugged 9 2 unanswered (omega arith) refl

-- ===== src/Legacy/Sun/Quarter.antt =====
-- `_quantize_15` of src/ecallisto_ng/services/scheduler.py.
use e_callisto_ng.Prelude.{ℕ, ◌+◌, ◌%◌, ◌≤◌, ◌≡◌, arith}
use e_callisto_ng.Legacy.Sun.{quantize_15}

-- A time is moved by at most seven and a half minutes and a second, to a full quarter of an hour.
pub quantize_15_near :
    (t : ℕ)
    → (quantize_15 t % 900_000 ≡ 0) × (t ≤ quantize_15 t + 451_000) × (quantize_15 t ≤ t + 451_000)
unfolding quantize_15
quantize_15_near t = (ground arith, ground arith, ground arith)

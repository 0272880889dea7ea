-- ===== src/Legacy/Sun.antt =====
-- The scheduler.cfg that is generated from the Sun: `generate_sun_scheduler_cfg` and `_quantize_15` of
-- src/ecallisto_ng/services/scheduler.py. Times are milliseconds since the epoch, and the horizon
-- stands above the horizontal, in ten-thousandths of a degree; the samples of the Sun's
-- elevation, which astropy computes, are a parameter.
use e_callisto_ng.Prelude.Text.{codes}
use e_callisto_ng.Prelude.Decimal.{padded}
use e_callisto_ng.Prelude.{
  ℕ, ◌+◌, ◌-◌, ◌*◌, ◌/◌, ◌%◌, Bool, true, false, Option, none, some, List, [], ◌∷◌, ◌++◌, ltb,
  if◌then◌else◌,
}
use e_callisto_ng.Services.Windows.{SunEvents, day_ms, events_of, sunrise_altitude}
use e_callisto_ng.Legacy.{ExportEntry, build_scheduler_cfg}
pub mod Quarter

-- `round(dt.second / 60)`, which takes a half to the even side
abbrev pub rounded_second : ℕ → ℕ
rounded_second second = if ltb 30 second then 1 else 0

-- No count of minutes lies in the middle between two quarters.
unfoldable pub quantize_15 : ℕ → ℕ
quantize_15 t =
    let minutes = t % day_ms / 60_000 + rounded_second (t % 60_000 / 1_000) in
    t / day_ms * day_ms + (minutes + 7) / 15 * 15 * 60_000

-- `{dt:%H:%M:%S}`
unfoldable pub clock_time : ℕ → List ℕ
clock_time t =
    padded 2 (t % day_ms / 3_600_000)
    ++ 58 ∷ (padded 2 (t % 3_600_000 / 60_000) ++ 58 ∷ padded 2 (t % 60_000 / 1_000))

-- The time of the first highest sample.
abbrev pub highest : ℕ → ℕ → List (ℕ × ℕ) → ℕ
highest best el [] = best
highest best el ((t, e) ∷ samples) =
    if ltb el e then highest t e samples else highest best el samples

abbrev pub transit : List (ℕ × ℕ) → ℕ
transit [] = 0
transit ((t, e) ∷ samples) = highest t e samples

abbrev pub line_at : ℕ → ℕ → List ℕ → ExportEntry
line_at focus_code t mode = record {
  time_utc = clock_time (quantize_15 t);
  focus_code = focus_code;
  mode = mode;
  program = [];
}

-- Half an hour after sunset.
abbrev pub overview_lines : Bool → ℕ → ℕ → List ExportEntry
overview_lines true focus_code sunset = line_at focus_code (sunset + 1_800_000) (codes "8") ∷ []
overview_lines false focus_code sunset = []

abbrev pub sun_lines : ℕ → ℕ → Bool → ℕ → Option ℕ → Option ℕ → List ExportEntry
sun_lines focus_code trim overview top none sunset = []
sun_lines focus_code trim overview top (some sunrise) none = []
sun_lines focus_code trim overview top (some sunrise) (some sunset) =
    line_at focus_code (sunrise + trim) (codes "3")
    ∷ line_at focus_code top (codes "3")
    ∷ line_at focus_code (sunset - trim) (codes "0")
    ∷ overview_lines overview focus_code sunset

-- The entries for a day; the horizon takes four minutes a degree off both ends.
unfoldable pub sun_entries : List (ℕ × ℕ) → ℕ → ℕ → Bool → List ExportEntry
sun_entries samples focus_code horizon overview =
    let e = events_of sunrise_altitude samples in
    sun_lines focus_code (horizon * 24) overview (transit samples) e.rise e.sets

abbrev pub generate_sun_scheduler_cfg : List (ℕ × ℕ) → ℕ → ℕ → Bool → List ℕ
generate_sun_scheduler_cfg samples focus_code horizon overview =
    build_scheduler_cfg (sun_entries samples focus_code horizon overview)

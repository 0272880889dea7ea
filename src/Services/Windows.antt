-- ===== src/Services/Windows.antt =====
-- The daily recording windows, src/ecallisto_ng/services/scheduler.py and `schedule_window` of
-- scheduler_service.py. Times are milliseconds since the epoch, a day its number since the
-- epoch; an elevation is counted in ten-thousandths of a degree from the nadir, so the horizon
-- is 900000. The ephemeris is a parameter: the samples (time, elevation) of a day.
use e_callisto_ng.Prelude.Decimal.{value_on, padded}
use e_callisto_ng.Prelude.{
  ℕ, ◌+◌, ◌-◌, ◌*◌, ◌/◌, ◌%◌, Bool, true, false, not, ◌&&◌, Option, none, some, List, [], ◌∷◌, ◌++◌,
  leb, ltb, ◌==◌, all, is_some, if◌then◌else◌,
}
pub mod Daylight
pub mod Fixed
pub mod Tests

abbrev pub day_ms : ℕ
day_ms = 86400000

abbrev pub Window : Type 0
Window = Option (ℕ × ℕ)

-- The first rise and the last set of a day.
pub record SunEvents : Type 0 where
  pub rise : Option ℕ
  pub sets : Option ℕ

abbrev pub no_events : SunEvents
no_events = record { rise = none; sets = none }

module _ (h : ℕ) where
  unfoldable pub crossing : ℕ → ℕ → ℕ → SunEvents → SunEvents
  crossing prev t el e = record {
    rise = if not (is_some e.rise) && (ltb prev h && leb h el) then some t else e.rise;
    sets = if leb h prev && ltb el h then some t else e.sets;
  }

  unfoldable pub crossings : ℕ → List (ℕ × ℕ) → SunEvents → SunEvents
  crossings prev [] e = e
  crossings prev ((t, el) ∷ samples) e = crossings el samples (crossing prev t el e)

  unfoldable pub events_of : List (ℕ × ℕ) → SunEvents
  events_of [] = no_events
  events_of ((t, el) ∷ samples) = crossings el samples no_events

  -- `max(...) > horizon`
  unfoldable pub is_ever_above : List (ℕ × ℕ) → Bool
  is_ever_above [] = false
  is_ever_above ((t, el) ∷ samples) = if ltb h el then true else is_ever_above samples

-- -0.8333 degrees
abbrev pub sunrise_altitude : ℕ
sunrise_altitude = 891667

-- `trim` is taken off both ends; a window with no time left is none.
unfoldable pub trimmed : ℕ → ℕ → ℕ → Window
trimmed trim a b = if leb b (a + trim + trim) then none else some (a + trim, b - trim)

abbrev or_else : Option ℕ → ℕ → ℕ
or_else none d = d
or_else (some t) d = t

-- `midnight` is that of the day.
unfoldable pub sun_span : ℕ → ℕ → SunEvents → Window
sun_span trim midnight e =
    if not (is_some e.rise) && not (is_some e.sets)
    then none
    else trimmed trim (or_else e.rise midnight) (or_else e.sets (midnight + day_ms))

unfoldable pub sun_window : ℕ → ℕ → List (ℕ × ℕ) → Window
sun_window trim midnight samples = sun_span trim midnight (events_of sunrise_altitude samples)

-- The horizon adds four minutes a degree on both ends.
unfoldable pub sun_trim : ℕ → ℕ → ℕ
sun_trim margin_minutes horizon = margin_minutes * 60000 + horizon * 24

abbrev has_span : Option ℕ → Option ℕ → Bool
has_span none b = false
has_span (some a) none = false
has_span (some a) (some b) = ltb a b

unfoldable pub source_window : ℕ → ℕ → ℕ → List (ℕ × ℕ) → Window
source_window horizon margin midnight samples =
    let e = events_of horizon samples in
    if has_span e.rise e.sets
    then trimmed margin (or_else e.rise 0) (or_else e.sets 0)
    else if is_ever_above horizon samples
    then trimmed margin midnight (midnight + day_ms)
    else none

-- `int(x)` of plain digits; the signs, blanks and underscores that it also takes are left out.
unfoldable pub read_number : List ℕ → Option ℕ
read_number [] = none
read_number (c ∷ cs) =
    if all (λ d. leb 48 d && leb d 57) (c ∷ cs) then some (value_on 0 (c ∷ cs)) else none

abbrev onto : ℕ → List (List ℕ) → List (List ℕ)
onto c [] = (c ∷ []) ∷ []
onto c (p ∷ ps) = (c ∷ p) ∷ ps

-- `text.split(":")`
unfoldable pub split_colon : List ℕ → List (List ℕ)
split_colon [] = [] ∷ []
split_colon (c ∷ cs) = if c == 58 then [] ∷ split_colon cs else onto c (split_colon cs)

abbrev both : Option ℕ → Option ℕ → Window
both none y = none
both (some x) none = none
both (some x) (some y) = some (x, y)

abbrev two_numbers : List (List ℕ) → Window
two_numbers [] = none
two_numbers (a ∷ []) = none
two_numbers (a ∷ b ∷ []) = both (read_number a) (read_number b)
two_numbers (a ∷ b ∷ c ∷ cs) = none

-- Hour and minute of an "HH:MM" text.
unfoldable pub read_hhmm : List ℕ → Option (ℕ × ℕ)
read_hhmm text = two_numbers (split_colon text)

-- `datetime(...)` raises for an hour or a minute out of range, here none.
unfoldable pub at_time : ℕ → ℕ × ℕ → Option ℕ
at_time day (h, m) =
    if ltb h 24 && ltb m 60 then some (day * day_ms + (h * 60 + m) * 60000) else none

abbrev span_of : Option ℕ → Option ℕ → Option Window
span_of none b = none
span_of (some a) none = none
span_of (some a) (some b) = some (if leb b a then none else some (a, b))

abbrev fixed_of : ℕ → Option (ℕ × ℕ) → Option (ℕ × ℕ) → Option Window
fixed_of day none y = some none
fixed_of day (some x) none = some none
fixed_of day (some x) (some y) = span_of (at_time day x) (at_time day y)

-- The outer none is the exception.
unfoldable pub fixed_window : ℕ → List ℕ → List ℕ → Option Window
fixed_window day start_hhmm stop_hhmm = fixed_of day (read_hhmm start_hhmm) (read_hhmm stop_hhmm)

unfoldable pub is_recording_desired : Window → ℕ → Bool
is_recording_desired none now = false
is_recording_desired (some (start, stop)) now = leb start now && ltb now stop

-- `now.strftime("%H:%M")`
unfoldable pub clock_text : ℕ → List ℕ
clock_text now =
    let minute = now % day_ms / 60000 in padded 2 (minute / 60) ++ 58 ∷ padded 2 (minute % 60)

pub data Kind : Type 0 where
  manual fixed tracked : Kind

pub data Source : Type 0 where
  unset sun : Source
  body : ℕ → Source

pub record Schedule : Type 0 where
  pub id : ℕ
  pub instrument_id : ℕ
  pub kind : Kind
  pub source : Source
  pub margin_minutes : ℕ
  pub start_utc : List ℕ
  pub stop_utc : List ℕ
  pub overview_at : List ℕ
  pub enabled : Bool

module _ (sky : Source → ℕ → List (ℕ × ℕ)) (horizon : ℕ) where
  -- The trim of the Sun's window takes the horizon above the horizontal; one below it,
  -- which widens the window in the source, is left out.
  abbrev pub tracked_window : Source → ℕ → ℕ → Window
  tracked_window (body k) margin day =
      source_window horizon (margin * 60000) (day * day_ms) (sky (body k) day)
  tracked_window _ margin day =
      sun_window (sun_trim margin (horizon - 900000)) (day * day_ms) (sky sun day)

  abbrev pub window_of : Kind → Schedule → ℕ → Option Window
  window_of manual s day = some none
  window_of fixed s day = fixed_window day s.start_utc s.stop_utc
  window_of tracked s day = some (tracked_window s.source s.margin_minutes day)

  unfoldable pub schedule_window : Schedule → ℕ → Option Window
  schedule_window s day = window_of s.kind s day

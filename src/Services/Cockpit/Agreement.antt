-- ===== src/Services/Cockpit/Agreement.antt =====
-- The dashboard of src/ecallisto_ng/services/operations.py and the scheduler of
-- src/ecallisto_ng/services/scheduler_service.py on one instrument.
use e_callisto_ng.Prelude.{
  ℕ, ◌*◌, ◌-◌, ◌/◌, ◌≡◌, refl, sym, ap, ◌∙◌, Bool, true, false, ◌&&◌, Option, none, some, List, [],
  ◌∷◌, ltb, if◌then◌else◌, ◌==◌, arith,
}
use e_callisto_ng.Services.Runtime.{Table}
use e_callisto_ng.Services.Windows.{
  Kind, Schedule, Source, Window, body, day_ms, fixed, is_recording_desired, manual,
  schedule_window, sun, sun_trim, sun_window, tracked, unset, window_of,
}
use e_callisto_ng.Services.Scheduler.{Env, active_schedule, desired, desired_by, is_windowed, wants}
use e_callisto_ng.Services.Cockpit.{
  action_in, action_of, enabled_schedule, next_action, next_start, recording_until, shows_on,
  window_by, window_passed,
}

-- A fixed schedule, or one that tracks the Sun over a plain horizon.
abbrev pub is_shown_right : ℕ → Kind → Source → Bool
is_shown_right horizon manual source = false
is_shown_right horizon fixed source = true
is_shown_right horizon tracked (body k) = false
is_shown_right horizon tracked source = horizon == 900_000

right_windowed :
    (horizon : ℕ) (kind : Kind) (source : Source)
    → is_shown_right horizon kind source ≡ true
    → is_windowed kind ≡ true
right_windowed horizon manual source w = cc
right_windowed horizon fixed source w = refl
right_windowed horizon tracked source w = refl

abbrev kind_or : Option Schedule → Kind
kind_or none = manual
kind_or (some s) = s.kind

active_enabled :
    (ss : List Schedule) (i horizon : ℕ) (s : Schedule)
    → enabled_schedule ss i ≡ some s
    → is_shown_right horizon s.kind s.source ≡ true
    → active_schedule ss i ≡ some s
unfolding enabled_schedule active_schedule
active_enabled [] i horizon s e w = cc
active_enabled (t ∷ ts) i horizon s e w =
    go (t.instrument_id == i) t.enabled (λ d. active_enabled ts i horizon s d w) e
  where
    first :
        (b : Bool)
        → b ≡ true
        → some t ≡ some s
        → (if b then some t else active_schedule ts i) ≡ some s
    first true q d = d
    first false q d = cc

    go :
        (a b : Bool)
        → (enabled_schedule ts i ≡ some s → active_schedule ts i ≡ some s)
        → (if a && b then some t else enabled_schedule ts i) ≡ some s
        → (if a && (b && is_windowed t.kind) then some t else active_schedule ts i) ≡ some s
    go false b rec d = rec d
    go true false rec d = rec d
    go true true rec d =
        first (is_windowed t.kind)
          (ap (λ o. is_windowed (kind_or o)) d ∙ right_windowed horizon s.kind s.source w) d

shows_window : (now : ℕ) (o : Option Window) → shows_on (action_in now o) ≡ wants o now
unfolding is_recording_desired
shows_window now none = refl
shows_window now (some none) = refl
shows_window now (some (some (from, until))) =
    go (is_recording_desired (some (from, until)) now) (ltb now from)
  where
    go :
        (b c : Bool)
        → shows_on (
            some
              (if b then recording_until until else if c then next_start from else window_passed))
          ≡ some b
    go true c = refl
    go false true = refl
    go false false = refl

window_agrees :
    (v : Env) (s : Schedule) (day : ℕ)
    → is_shown_right v.horizon s.kind s.source ≡ true
    → window_by v s.kind s day ≡ schedule_window v.sky v.horizon s day
unfolding schedule_window
window_agrees v s day w = go s.kind s.source w
  where
    plain : (horizon : ℕ) → (horizon == 900_000) ≡ true → horizon - 900_000 ≡ 0
    plain horizon e = ground (arith, e)

    go :
        (kind : Kind) (source : Source)
        → is_shown_right v.horizon kind source ≡ true
        → window_by v kind s day ≡ window_of v.sky v.horizon kind (record s { source = source }) day
    go manual source w = cc
    go fixed source w = refl
    go tracked (body k) w = cc
    go tracked unset w =
        ap (λ h. some (sun_window (sun_trim s.margin_minutes h) (day * day_ms) (v.sky sun day)))
          (sym (plain v.horizon w))
    go tracked sun w =
        ap (λ h. some (sun_window (sun_trim s.margin_minutes h) (day * day_ms) (v.sky sun day)))
          (sym (plain v.horizon w))

-- For an instrument whose first enabled schedule is a fixed one, or tracks the Sun over a horizon that
-- is not raised, the dashboard says that it records until a time exactly when the scheduler wants
-- it to record, and both raise for the same times out of range.
pub next_action_agrees :
    (v : Env) (now i : ℕ) (rows : Table) (s : Schedule)
    → enabled_schedule v.schedules i ≡ some s
    → is_shown_right v.horizon s.kind s.source ≡ true
    → shows_on (next_action v now i) ≡ desired v now i rows
unfolding next_action desired
next_action_agrees v now i rows s e w =
    ap (λ o. shows_on (action_of v now o)) e
    ∙ shows_window now (window_by v s.kind s (now / day_ms))
    ∙ ap (λ o. wants o now) (window_agrees v s (now / day_ms) w)
    ∙ sym (ap (desired_by v now i rows) (active_enabled v.schedules i v.horizon s e w))

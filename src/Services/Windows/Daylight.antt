-- ===== src/Services/Windows/Daylight.antt =====
-- The Sun's window for the shapes that a day's elevations take.
use e_callisto_ng.Prelude.{
  ℕ, ◌≤◌, ◌<◌, ◌≡◌, refl, ap, ◌∙◌, ◌⊎◌, inl, inr, none, some, List, [], ◌∷◌, ◌++◌, All, arith,
}
use e_callisto_ng.Services.Windows.{
  SunEvents, crossing, crossings, events_of, no_events, sun_span, sun_window, sunrise_altitude,
  trimmed,
}

abbrev pub IsLow : ℕ → ℕ × ℕ → Type 0
IsLow h (t, el) = el < h

abbrev pub IsHigh : ℕ → ℕ × ℕ → Type 0
IsHigh h (t, el) = h ≤ el

module _ (h : ℕ) where
  crossing_low : (prev t el : ℕ) (e : SunEvents) → prev < h → el < h → crossing h prev t el e ≡ e
  unfolding crossing
  crossing_low prev t el e p q = ground arith

  crossing_high : (prev t el : ℕ) (e : SunEvents) → h ≤ prev → h ≤ el → crossing h prev t el e ≡ e
  unfolding crossing
  crossing_high prev t el e p q = ground arith

  crossing_rise :
      (prev t el : ℕ) (e : SunEvents)
      → prev < h
      → h ≤ el
      → e.rise ≡ none
      → crossing h prev t el e ≡ record e { rise = some t }
  unfolding crossing
  crossing_rise prev t el e p q r = ground arith

  crossing_set :
      (prev t el : ℕ) (e : SunEvents)
      → h ≤ prev
      → el < h
      → crossing h prev t el e ≡ record e { sets = some t }
  unfolding crossing
  crossing_set prev t el e p q = ground arith

  crossings_night :
      (prev t el : ℕ) (xs ys : List (ℕ × ℕ)) (e : SunEvents)
      → prev < h
      → All (IsLow h) xs
      → h ≤ el
      → e.rise ≡ none
      → crossings h prev (xs ++ (t, el) ∷ ys) e ≡ crossings h el ys (record e { rise = some t })
  unfolding crossings
  crossings_night prev t el [] ys e p a q r =
      ap (crossings h el ys) (crossing_rise prev t el e p q r)
  crossings_night prev t el ((u, x) ∷ xs) ys e p a q r =
      ap (crossings h x (xs ++ (t, el) ∷ ys)) (crossing_low prev u x e p a.0)
      ∙ crossings_night x t el xs ys e a.0 a.1 q r

  crossings_day :
      (prev t el : ℕ) (xs ys : List (ℕ × ℕ)) (e : SunEvents)
      → h ≤ prev
      → All (IsHigh h) xs
      → el < h
      → crossings h prev (xs ++ (t, el) ∷ ys) e ≡ crossings h el ys (record e { sets = some t })
  unfolding crossings
  crossings_day prev t el [] ys e p a q = ap (crossings h el ys) (crossing_set prev t el e p q)
  crossings_day prev t el ((u, x) ∷ xs) ys e p a q =
      ap (crossings h x (xs ++ (t, el) ∷ ys)) (crossing_high prev u x e p a.0)
      ∙ crossings_day x t el xs ys e a.0 a.1 q

  crossings_low :
      (prev : ℕ) (xs : List (ℕ × ℕ)) (e : SunEvents)
      → prev < h
      → All (IsLow h) xs
      → crossings h prev xs e ≡ e
  unfolding crossings
  crossings_low prev [] e p a = refl
  crossings_low prev ((u, x) ∷ xs) e p a =
      ap (crossings h x xs) (crossing_low prev u x e p a.0) ∙ crossings_low x xs e a.0 a.1

  crossings_high :
      (prev : ℕ) (xs : List (ℕ × ℕ)) (e : SunEvents)
      → h ≤ prev
      → All (IsHigh h) xs
      → crossings h prev xs e ≡ e
  unfolding crossings
  crossings_high prev [] e p a = refl
  crossings_high prev ((u, x) ∷ xs) e p a =
      ap (crossings h x xs) (crossing_high prev u x e p a.0) ∙ crossings_high x xs e a.0 a.1

module _ (trim midnight : ℕ) where
  -- When the day's samples are a night, a day and a night, the window runs from the first sample of
  -- the day to the first of the second night, less the trim on both ends, and is none if the trim
  -- leaves nothing.
  sun_window_daylight :
      (n d s : ℕ × ℕ) (night day later : List (ℕ × ℕ))
      → All (IsLow sunrise_altitude) (n ∷ night)
      → All (IsHigh sunrise_altitude) (d ∷ day)
      → All (IsLow sunrise_altitude) (s ∷ later)
      → sun_window trim midnight ((n ∷ night) ++ ((d ∷ day) ++ s ∷ later)) ≡ trimmed trim d.0 s.0
  unfolding sun_window sun_span events_of
  sun_window_daylight (a, n) (b, d) (c, s) night day later hn hd hs = ap (sun_span trim midnight) (
      crossings_night sunrise_altitude n b d night (day ++ (c, s) ∷ later) no_events hn.0 hn.1 hd.0
        refl
      ∙ crossings_day sunrise_altitude d c s day later _ hd.0 hd.1 hs.0
      ∙ crossings_low sunrise_altitude s later _ hs.0 hs.1)

  -- When the Sun is up at both ends of the UT day and sets and rises again within it, as it does
  -- far enough from Greenwich, there is no window at all.
  sun_window_wrapped :
      (m s d : ℕ × ℕ) (day night later : List (ℕ × ℕ))
      → All (IsHigh sunrise_altitude) (m ∷ day)
      → All (IsLow sunrise_altitude) (s ∷ night)
      → All (IsHigh sunrise_altitude) (d ∷ later)
      → s.0 ≤ d.0
      → sun_window trim midnight ((m ∷ day) ++ ((s ∷ night) ++ d ∷ later)) ≡ none
  unfolding sun_window sun_span events_of trimmed
  sun_window_wrapped (a, m) (b, s) (c, d) day night later hm hs hd o =
      ap (sun_span trim midnight) (
        crossings_day sunrise_altitude m b s day (night ++ (c, d) ∷ later) no_events hm.0 hm.1 hs.0
        ∙ crossings_night sunrise_altitude s c d night later _ hs.0 hs.1 hd.0 refl
        ∙ crossings_high sunrise_altitude d later _ hd.0 hd.1)
      ∙ ground arith

  -- When the Sun is up for the whole UT day there is no window, as when it is down for all of it.
  sun_window_polar :
      (m : ℕ × ℕ) (day : List (ℕ × ℕ))
      → All (IsHigh sunrise_altitude) (m ∷ day) ⊎ All (IsLow sunrise_altitude) (m ∷ day)
      → sun_window trim midnight (m ∷ day) ≡ none
  unfolding sun_window sun_span events_of
  sun_window_polar (a, m) day (inl up) =
      ap (sun_span trim midnight) (crossings_high sunrise_altitude m day no_events up.0 up.1)
  sun_window_polar (a, m) day (inr down) =
      ap (sun_span trim midnight) (crossings_low sunrise_altitude m day no_events down.0 down.1)

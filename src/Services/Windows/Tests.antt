-- ===== src/Services/Windows/Tests.antt =====
-- A fixed window on the second day.
use e_callisto_ng.Prelude.Text.{codes}
use e_callisto_ng.Services.Windows.Fixed.{ClockTime, fixed_window_open, is_open}
use e_callisto_ng.Prelude.{true, refl, ◌/◌, ◌≡◌, some, [], ◌∷◌, arith}
use e_callisto_ng.Services.Windows.{day_ms, fixed_window}

six_o_clock : ClockTime (codes "06:00") 6 0
six_o_clock = record {
  hour_digit = 48;
  hour_digits = 54 ∷ [];
  minute_digit = 48;
  minute_digits = 48 ∷ [];
  spelled = refl;
  hour_read = ((omega arith, omega arith), ((omega arith, omega arith), tt));
  minute_read = ((omega arith, omega arith), ((omega arith, omega arith), tt));
  hour = refl;
  minute = refl;
  hour_bound = omega arith;
  minute_bound = omega arith;
}

half_past_six : ClockTime (codes "18:30") 18 30
half_past_six = record {
  hour_digit = 49;
  hour_digits = 56 ∷ [];
  minute_digit = 51;
  minute_digits = 48 ∷ [];
  spelled = refl;
  hour_read = ((omega arith, omega arith), ((omega arith, omega arith), tt));
  minute_read = ((omega arith, omega arith), ((omega arith, omega arith), tt));
  hour = refl;
  minute = refl;
  hour_bound = omega arith;
  minute_bound = omega arith;
}

-- 12:00 of the second day
fixed_window_open_example :
    is_open (fixed_window (129600000 / day_ms) (codes "06:00") (codes "18:30")) 129600000
    ≡ some true
fixed_window_open_example =
    fixed_window_open (codes "06:00") (codes "18:30") 6 0 18 30 129600000 six_o_clock half_past_six

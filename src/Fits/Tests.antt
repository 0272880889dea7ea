-- ===== src/Fits/Tests.antt =====
-- A recording of two frames of three channels, put where a file of the same second is.
use e_callisto_ng.Prelude.{
  ℕ, ◌≡◌, refl, Option, none, some, List, [], ◌∷◌, ◌++◌, get_elem?, ltb, if◌then◌else◌, arith,
}
use e_callisto_ng.Prelude.Text.{codes, same_text}
use e_callisto_ng.Prelude.Decimal.{decimal, digits_on, padded}
use e_callisto_ng.Fits.{
  Dir, Frame, Moment, Product, Recording, date_text, image_of, stem_of, store_file, time_text,
  unique_path, write,
}
use e_callisto_ng.Fits.Image.{write_rows}
use e_callisto_ng.Fits.Keeping.{store_file_keeps}
use e_callisto_ng.Fits.Names.{days_in_month, is_valid, observation_time}
use e_callisto_ng.Fits.Names.Archive.{IsDated, observation_time-stem_of}

abbrev leap_day : Moment
leap_day = record { year = 2024; month = 2; day = 29; hour = 23; minute = 59; second = 58 }

abbrev new_year : Moment
new_year = record { year = 1999; month = 1; day = 1; hour = 0; minute = 0; second = 0 }

leap_day-IsDated : IsDated leap_day
unfolding is_valid days_in_month
leap_day-IsDated = record { valid = refl; years = omega arith; four_digits = omega arith }

observation_time-stem_of_example :
    observation_time (stem_of (codes "GRAZ_01") leap_day 59 ++ codes "_01") new_year ≡ leap_day
observation_time-stem_of_example =
    observation_time-stem_of (codes "GRAZ_01") leap_day 59 (codes "_01") new_year refl
      leap_day-IsDated

leap_day_name : stem_of (codes "GRAZ_01") leap_day 5 ≡ codes "GRAZ_01_20240229_235958_05"
unfolding stem_of date_text time_text padded decimal digits_on
leap_day_name = refl

-- A file of the same name is there.
abbrev one_file : Dir ℕ
one_file name = if same_text (codes "x.fit") name then some 4 else none

store_file_keeps_example :
    let (path, after) = store_file one_file (codes "x") 9 in
    (one_file path ≡ none) × (after path ≡ some 9) × (after (codes "x.fit") ≡ some 4)
unfolding unique_path padded decimal digits_on
store_file_keeps_example = store_file_keeps one_file (codes "x") 9 (codes "x.fit") refl refl refl

second_name : (store_file one_file (codes "x") 9).0 ≡ codes "x_01.fit"
unfolding store_file unique_path padded decimal digits_on
second_name = refl

abbrev frame_of : List ℕ → Frame
frame_of values = record { timestamp = leap_day; values = values }

abbrev two_frames : Recording
two_frames = record {
  instrument = codes "GRAZ";
  focus_code = 59;
  channels = 45 ∷ 46 ∷ 47 ∷ [];
  frames = frame_of (1 ∷ 2 ∷ 3 ∷ []) ∷ frame_of (4 ∷ 5 ∷ 6 ∷ []) ∷ [];
}

abbrev empty_dir : Dir Product
empty_dir name = none

-- A sample above 255 is refused, as recent versions of numpy do.
abbrev refusing : ℕ → Option ℕ
refusing v = if ltb v 256 then some v else none

too_bright :
    write refusing
      (λ vs. some vs)
      (record two_frames { frames = frame_of (1 ∷ 2 ∷ 300 ∷ []) ∷ [] })
      empty_dir
    ≡ none
unfolding write image_of
too_bright = refl

-- The first row is that of the last channel.
write_rows_example :
    (product : Product) × (write refusing (λ vs. some vs) two_frames empty_dir
      ≡ some (store_file empty_dir (stem_of (codes "GRAZ") leap_day 59) product))
    × (product.start ≡ leap_day)
    × (get_elem? product.image 0 ≡ some (3 ∷ 6 ∷ []))
    × (get_elem? product.frequencies 0 ≡ some 47)
write_rows_example =
    write_rows refusing (λ vs. some vs) two_frames empty_dir (frame_of (1 ∷ 2 ∷ 3 ∷ []))
      (frame_of (4 ∷ 5 ∷ 6 ∷ []) ∷ []) ((1 ∷ 2 ∷ 3 ∷ []) ∷ (4 ∷ 5 ∷ 6 ∷ []) ∷ []) (1 ∷ 2 ∷ 3 ∷ [])
      ((4 ∷ 5 ∷ 6 ∷ []) ∷ []) 0 refl refl refl refl (omega arith)

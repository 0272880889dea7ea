-- ===== src/Fits.antt =====
-- The standard FITS file, src/ecallisto_ng/writers/fits/standard.py: its name, its image and its
-- frequency axis, and where it is put. A directory maps the names of its files to what is in them.
-- The header's cards and the encoding itself are astropy's and left out.
use e_callisto_ng.Prelude.{
  ℕ, zero, suc, ◌+◌, Bool, true, false, Option, none, some, is_some, List, [], ◌∷◌, ◌++◌, map,
  length, get_elem?, all, if◌then◌else◌, ◌==◌,
}
use e_callisto_ng.Prelude.Text.{codes, same_text}
use e_callisto_ng.Prelude.Decimal.{padded}
pub mod Names
pub mod Image
pub mod Keeping
mod Tests

-- A UTC time to the second.
pub record Moment : Type 0 where
  pub year : ℕ
  pub month : ℕ
  pub day : ℕ
  pub hour : ℕ
  pub minute : ℕ
  pub second : ℕ

-- `{start:%Y%m%d}` and `{start:%H%M%S}`, for a year of four digits
unfoldable pub date_text : Moment → List ℕ
date_text t = padded 4 t.year ++ (padded 2 t.month ++ padded 2 t.day)

unfoldable pub time_text : Moment → List ℕ
time_text t = padded 2 t.hour ++ (padded 2 t.minute ++ padded 2 t.second)

abbrev pub extension : List ℕ
extension = codes ".fit"

-- The name without its extension.
unfoldable pub stem_of : List ℕ → Moment → ℕ → List ℕ
stem_of instrument start focus_code =
    instrument ++ 95 ∷ (date_text start ++ 95 ∷ (time_text start ++ 95 ∷ padded 2 focus_code))

abbrev pub candidate : List ℕ → ℕ → List ℕ
candidate stem i = stem ++ 95 ∷ (padded 2 i ++ extension)

abbrev pub Dir {ℓ} : Type ℓ → Type ℓ
Dir A = List ℕ → Option A

module _ {ℓ} {A : Type ℓ} where
  abbrev pub put_file : Dir A → List ℕ → Option A → Dir A
  put_file dir name content other = if same_text name other then content else dir other

  -- The loop, for so many further numbers from `i` on.
  abbrev pub unique_from : Dir A → List ℕ → ℕ → ℕ → List ℕ
  unique_from dir stem i zero = stem ++ extension
  unique_from dir stem i (suc left) =
      let rest = unique_from dir stem (i + 1) left in
      if is_some (dir (candidate stem i)) then rest else candidate stem i

  -- `_unique_path`
  unfoldable pub unique_path : Dir A → List ℕ → List ℕ
  unique_path dir stem =
      if is_some (dir (stem ++ extension)) then unique_from dir stem 1 999 else stem ++ extension

  -- The file is written under another name, and then renamed.
  unfoldable pub store_file : Dir A → List ℕ → A → List ℕ × Dir A
  store_file dir stem content =
      let path = unique_path dir stem in
      let tmp = path ++ codes ".tmp" in
      (path, put_file (put_file (put_file dir tmp (some content)) path (some content)) tmp none)

abbrev pub with_sample : Option ℕ → Option (List ℕ) → Option (List ℕ)
with_sample (some v) (some vs) = some (v ∷ vs)
with_sample _ _ = none

-- The samples of one channel, over all frames.
abbrev pub column : ℕ → List (List ℕ) → Option (List ℕ)
column i [] = some []
column i (frame ∷ frames) = with_sample (get_elem? frame i) (column i frames)

abbrev pub with_row : Option (List ℕ) → Option (List (List ℕ)) → Option (List (List ℕ))
with_row (some r) (some rs) = some (r ∷ rs)
with_row _ _ = none

-- `n` rows of the transpose, from the channel `i` on.
abbrev pub columns : ℕ → ℕ → List (List ℕ) → Option (List (List ℕ))
columns i zero frames = some []
columns i (suc n) frames = with_row (column i frames) (columns (i + 1) n frames)

module _ {ℓ} {A : Type ℓ} where
  -- `xs[::-1]`
  abbrev pub reverse : List A → List A
  reverse [] = []
  reverse (x ∷ xs) = reverse xs ++ x ∷ []

abbrev pub flipped : Option (List (List ℕ)) → Option (List (List ℕ))
flipped none = none
flipped (some rows) = some (reverse rows)

abbrev pub first_width : List (List ℕ) → ℕ
first_width [] = 0
first_width (frame ∷ frames) = length frame

-- `np.array(frames, dtype=np.uint8)`, with the conversion of one sample.
abbrev pub converted : (ℕ → Option ℕ) → List ℕ → Option (List ℕ)
converted as_uint8 [] = some []
converted as_uint8 (v ∷ vs) = with_sample (as_uint8 v) (converted as_uint8 vs)

abbrev pub converted_frames : (ℕ → Option ℕ) → List (List ℕ) → Option (List (List ℕ))
converted_frames as_uint8 [] = some []
converted_frames as_uint8 (f ∷ fs) = with_row (converted as_uint8 f) (converted_frames as_uint8 fs)

-- `samples.T[::-1, :]`, with a row for each sample of a frame, however many channels there are.
-- Frames of different lengths make no array, and an array of no rows has no least sample.
unfoldable pub image_of : List (List ℕ) → Option (List (List ℕ))
image_of frames =
    let n = first_width frames in
    if n == 0
    then none
    else if all (λ f. length f == n) frames
    then flipped (columns 0 n frames)
    else none

pub record Frame : Type 0 where
  pub timestamp : Moment
  pub values : List ℕ

pub record Recording : Type 0 where
  pub instrument : List ℕ
  pub focus_code : ℕ
  pub channels : List ℕ
  pub frames : List Frame

-- What a file holds: the image, its frequency axis, and the time of its first column.
pub record Product : Type 0 where
  pub start : Moment
  pub image : List (List ℕ)
  pub frequencies : List ℕ

abbrev pub calibrated_frames : (List ℕ → Option (List ℕ)) → List Frame → Option (List (List ℕ))
calibrated_frames f [] = some []
calibrated_frames f (g ∷ gs) = with_row (f g.values) (calibrated_frames f gs)

abbrev pub and_then {ℓ} :
    {A : Type ℓ} → Option (List (List ℕ)) → (List (List ℕ) → Option A) → Option A
and_then none k = none
and_then (some samples) k = k samples

abbrev stored :
    Recording → Moment → Option (List (List ℕ)) → Dir Product → Option (List ℕ × Dir Product)
stored r start none dir = none
stored r start (some image) dir = some (
    store_file dir (stem_of r.instrument start r.focus_code)
      (record { start = start; image = image; frequencies = reverse r.channels }))

abbrev written :
    (ℕ → Option ℕ)
    → (List ℕ → Option (List ℕ))
    → Recording
    → List Frame
    → Dir Product
    → Option (List ℕ × Dir Product)
written as_uint8 f r [] dir = none
written as_uint8 f r (first ∷ frames) dir =
    if length r.channels == 0
    then none
    else let values = calibrated_frames f (first ∷ frames) in
      stored r first.timestamp (and_then (and_then values (converted_frames as_uint8)) image_of) dir

-- `write`, with numpy's conversion of a sample and the calibration of one frame; `none` is what it
-- raises.
unfoldable pub write :
    (ℕ → Option ℕ)
    → (List ℕ → Option (List ℕ))
    → Recording
    → Dir Product
    → Option (List ℕ × Dir Product)
write as_uint8 f r dir = written as_uint8 f r r.frames dir

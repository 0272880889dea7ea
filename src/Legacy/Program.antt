-- ===== src/Legacy/Program.antt =====
-- frqXXXXX.cfg, the frequency programs of the legacy software: `build_frequency_program_cfg` of
-- src/ecallisto_ng/services/legacy_export.py and `parse_frequency_program` of
-- src/ecallisto_ng/services/legacy_import.py. Frequencies are whole multiples of 2^-s MHz, the
-- target is the default one. Of the texts of a float only plain decimals are read; letters of words are ASCII.
use e_callisto_ng.Prelude.Text.{begins_with, codes, same_text}
use e_callisto_ng.Prelude.Decimal.{decimal, padded, ten_to, value_on}
use e_callisto_ng.Prelude.Split.{cut, split}
use e_callisto_ng.Prelude.Lines.{lines_after, strip}
use e_callisto_ng.Prelude.Int.{ℤ, pos}
use e_callisto_ng.Prelude.{
  ℕ, zero, suc, ◌+◌, ◌-◌, ◌*◌, ◌/◌, ◌%◌, ◌^◌, Bool, true, false, not, ◌&&◌, ◌||◌, Option, none,
  some, List, [], ◌∷◌, ◌++◌, map, all, length, leb, ltb, if◌then◌else◌, ◌==◌,
}
use e_callisto_ng.Frequencies.{round_div}
use e_callisto_ng.Legacy.{is_digit, joined_lines, read_int}
pub mod Export
pub mod Keys
pub mod Reading

-- `{f:.3f}` with so many digits before the point
abbrev pub mhz : ℕ → ℕ → List ℕ
mhz width f = padded width (f / 1000) ++ 46 ∷ padded 3 (f % 1000)

abbrev pub setting : List ℕ → List ℕ → List ℕ
setting key value = 91 ∷ (key ++ 93 ∷ 61 ∷ value)

abbrev pub is_in : ℕ → List ℕ → Bool
is_in i [] = false
is_in i (j ∷ js) = i == j || is_in i js

abbrev pub flag : Bool → List ℕ
flag true = codes "1"
flag false = codes "0"

-- From the index `i` on.
abbrev pub channel_lines : List ℕ → ℕ → List ℕ → List (List ℕ)
channel_lines lc i [] = []
channel_lines lc i (f ∷ fs) =
    setting (padded 4 (i + 1)) (mhz 4 f ++ 44 ∷ flag (is_in i lc)) ∷ channel_lines lc (i + 1) fs

-- The places after the point that leave six digits of 800/n, for n up to eight million.
abbrev pub places : ℕ → ℕ
places n =
    if leb (n * 100) 800
    then 3
    else if leb (n * 10) 800
    then 4
    else if leb n 800
    then 5
    else if leb n 8_000
    then 6
    else if leb n 80_000
    then 7
    else if leb n 800_000
    then 8
    else 9

abbrev pub keep_unless_zero : ℕ → List ℕ → List ℕ
keep_unless_zero c [] = if c == 48 then [] else c ∷ []
keep_unless_zero c (d ∷ ds) = c ∷ d ∷ ds

-- Without the zeros at the end.
abbrev pub without_zeros : List ℕ → List ℕ
without_zeros [] = []
without_zeros (c ∷ cs) = keep_unless_zero c (without_zeros cs)

-- `{800 / n:g}`
unfoldable pub sweeps_text : ℕ → List ℕ
sweeps_text n =
    if n == 0
    then codes "0"
    else if 800 % n == 0
    then decimal (800 / n)
    else let unit = ten_to (places n) in
      let scaled = round_div (800 * unit) n in
      decimal (scaled / unit) ++ 46 ∷ without_zeros (padded (places n) (scaled % unit))

-- The file for frequencies and an oscillator of whole kilohertz.
unfoldable pub program_text : List ℕ → List ℕ → ℕ → List ℕ
program_text frequencies lc external_lo =
    let n = length frequencies in
    joined_lines (
      codes "// frequency program exported by e-Callisto NG"
      ∷ setting (codes "target") (codes "CALLISTO")
      ∷ setting (codes "on_line_testpoint_number") (decimal (n / 2))
      ∷ setting (codes "number_of_measurements_per_sweep") (decimal n)
      ∷ setting (codes "number_of_sweeps_per_second") (sweeps_text n)
      ∷ setting (codes "external_lo") (mhz 1 external_lo)
      ∷ channel_lines lc 0 frequencies)

-- The whole kilohertz to which `.3f` rounds `f` times 2^-s MHz.
abbrev pub kilohertz : ℕ → ℕ → ℕ
kilohertz s f = round_div (1000 * f) (2 ^ s)

-- Every float is a whole multiple of some 2^-s; the frequencies are given by these multiples.
unfoldable pub build_frequency_program_cfg : ℕ → List ℕ → List ℕ → ℕ → List ℕ
build_frequency_program_cfg s frequencies lc external_lo =
    program_text (map (kilohertz s) frequencies) lc (kilohertz s external_lo)

-- `\w`
abbrev pub is_word : ℕ → Bool
is_word c = is_digit c || (leb 65 c && leb c 90) || c == 95 || (leb 97 c && leb c 122)

abbrev pub lower : ℕ → ℕ
lower c = if leb 65 c && leb c 90 then c + 32 else c

abbrev pub lowered : List ℕ → List ℕ
lowered [] = []
lowered (c ∷ cs) = lower c ∷ lowered cs

-- The word at the start of a text, and the rest.
abbrev pub word_of : List ℕ → List ℕ × List ℕ
word_of [] = ([], [])
word_of (c ∷ cs) =
    let (word, rest) = word_of cs in if is_word c then (c ∷ word, rest) else ([], c ∷ cs)

-- `val.split("//")[0]`
abbrev pub before_comment : List ℕ → List ℕ
before_comment [] = []
before_comment (c ∷ cs) =
    let rest = before_comment cs in if begins_with (codes "//") (c ∷ cs) then [] else c ∷ rest

abbrev pub after_word : List ℕ × List ℕ → Option (List ℕ × List ℕ)
after_word ([], rest) = none
after_word (c ∷ key, rest) =
    if begins_with (codes "]=") rest
    then some (lowered (c ∷ key), strip (before_comment (cut 2 rest).1))
    else none

-- `_KV.match`, with the key in lower case and the value without its comment
unfoldable pub key_value : List ℕ → Option (List ℕ × List ℕ)
key_value [] = none
key_value (c ∷ cs) = if c == 91 then after_word (word_of cs) else none

-- `digits` over ten to the `places`
pub record Float : Type 0 where
  pub digits : ℕ
  pub places : ℕ

abbrev pub float_of : List (List ℕ) → Option Float
float_of (a ∷ []) =
    if all is_digit a && ltb 0 (length a)
    then some (record { digits = value_on 0 a; places = 0 })
    else none
float_of (a ∷ b ∷ []) =
    if all is_digit (a ++ b) && ltb 0 (length (a ++ b))
    then some (record { digits = value_on 0 (a ++ b); places = length b })
    else none
float_of _ = none

-- `float(text)`; `none` is the ValueError.
unfoldable pub read_float : List ℕ → Option Float
read_float text = float_of (split 46 (strip text))

pub record ProgramConfig : Type 0 where
  pub indexed : List (ℕ × Float)
  pub sweeps_per_second : ℤ
  pub local_oscillator : Float

abbrev pub empty_config : ProgramConfig
empty_config = record {
  indexed = [];
  sweeps_per_second = pos 4;
  local_oscillator = record { digits = 0; places = 0 };
}

abbrev pub or_text : List ℕ → List ℕ → List ℕ
or_text [] other = other
or_text (c ∷ cs) other = c ∷ cs

abbrev pub with_sweeps : ProgramConfig → Option ℤ → Option ProgramConfig
with_sweeps p none = none
with_sweeps p (some n) = some (record p { sweeps_per_second = n })

abbrev pub with_oscillator : ProgramConfig → Option Float → Option ProgramConfig
with_oscillator p none = none
with_oscillator p (some f) = some (record p { local_oscillator = f })

abbrev pub with_channel : ProgramConfig → ℕ → Option Float → Option ProgramConfig
with_channel p i none = none
with_channel p i (some f) = some (record p { indexed = p.indexed ++ (i, f) ∷ [] })

abbrev pub first_part : List (List ℕ) → List ℕ
first_part [] = []
first_part (a ∷ others) = a

-- The body of the loop for one setting; `none` is the ValueError.
unfoldable pub apply_setting : List ℕ → List ℕ → ProgramConfig → Option ProgramConfig
apply_setting key value p =
    if same_text key (codes "number_of_sweeps_per_second")
    then with_sweeps p (read_int (or_text value (codes "4")))
    else if same_text key (codes "external_lo")
    then with_oscillator p (read_float (or_text value (codes "0")))
    else if all is_digit key && ltb 0 (length key)
    then with_channel p (value_on 0 key) (read_float (first_part (split 44 value)))
    else some p

abbrev pub apply_match : Option (List ℕ × List ℕ) → ProgramConfig → Option ProgramConfig
apply_match none p = some p
apply_match (some (key, value)) p = apply_setting key value p

abbrev pub apply_lines : List (List ℕ) → Option ProgramConfig → Option ProgramConfig
apply_lines ls none = none
apply_lines [] (some p) = some p
apply_lines (l ∷ ls) (some p) = apply_lines ls (apply_match (key_value (strip l)) p)

-- `<=` of the numbers, and of the pairs
abbrev pub float_le : Float → Float → Bool
float_le a b = leb (a.digits * ten_to b.places) (b.digits * ten_to a.places)

abbrev pub channel_le : ℕ × Float → ℕ × Float → Bool
channel_le (i, a) (j, b) = ltb i j || (i == j && float_le a b)

abbrev pub insert_channel : ℕ × Float → List (ℕ × Float) → List (ℕ × Float)
insert_channel c [] = c ∷ []
insert_channel c (d ∷ ds) =
    let rest = insert_channel c ds in if channel_le c d then c ∷ d ∷ ds else d ∷ rest

abbrev pub by_index : List (ℕ × Float) → List (ℕ × Float)
by_index [] = []
by_index (c ∷ cs) = insert_channel c (by_index cs)

abbrev pub values : List (ℕ × Float) → List Float
values [] = []
values ((i, f) ∷ cs) = f ∷ values cs

-- The frequencies, the rate and the oscillator of what was read.
pub record Program : Type 0 where
  pub frequencies : List Float
  pub sweeps_per_second : ℤ
  pub local_oscillator : Float

abbrev pub finished : Option ProgramConfig → Option Program
finished none = none
finished (some p) = some (record {
  frequencies = values (by_index p.indexed);
  sweeps_per_second = p.sweeps_per_second;
  local_oscillator = p.local_oscillator;
})

unfoldable pub parse_frequency_program : List ℕ → Option Program
parse_frequency_program text = finished (apply_lines (lines_after false text) (some empty_config))

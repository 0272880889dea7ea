-- ===== src/Legacy/Program/Export.antt =====
-- The frequency program files of src/ecallisto_ng/services/legacy_export.py, and what
-- src/ecallisto_ng/services/legacy_import.py makes of them.
use e_callisto_ng.Prelude.Text.{codes}
use e_callisto_ng.Prelude.Decimal.{decimal, padded, length-padded_at_least, ten_to}
use e_callisto_ng.Prelude.Lines.{lines_after, lines_after_line, strip}
use e_callisto_ng.Prelude.Int.{ℤ, pos}
use e_callisto_ng.Prelude.{
  ℕ, suc, ◌*◌, ◌/◌, ◌%◌, ◌<◌, ◌≤◌, ◌≡◌, refl, sym, subst, ap, ◌∙◌, Bool, true, false, Bool-cases,
  inl, inr, Option, none, some, List, [], ◌∷◌, ◌++◌, map, all, length, length-append, if◌then◌else◌,
  ◌==◌, arith,
}
use e_callisto_ng.Frequencies.{round_div}
use e_callisto_ng.Legacy.{joined_lines, read_int}
use e_callisto_ng.Legacy.Program.{
  Float, Program, ProgramConfig, apply_lines, apply_match, apply_setting,
  build_frequency_program_cfg, channel_lines, kilohertz, program_text, empty_config, finished,
  is_word, key_value, lowered, mhz, or_text, parse_frequency_program, places, read_float, setting,
  sweeps_text, values, with_sweeps, with_oscillator, without_zeros,
}
use e_callisto_ng.Legacy.Program.Keys.{apply_lines-setting, is_solid, key_value_word, solid-append}
use e_callisto_ng.Legacy.Program.Reading.{
  by_index-indexed_from, decimal_solid, float, fraction_solid, mhz_solid, read-channel_lines,
  read_float-mhz, read_int-decimal, read_int_pointed, values-indexed_from,
}

-- One line more, whose key is the word `x ∷ xs`.
module _ (x : ℕ) (xs : List ℕ) (w : all is_word (x ∷ xs) ≡ true) (l : lowered (x ∷ xs) ≡ x ∷ xs)
    (k : is_solid (x ∷ xs) ≡ true) where
  read-setting :
      (value : List ℕ) (ls : List (List ℕ)) (p : ProgramConfig)
      → is_solid value ≡ true
      → apply_lines (lines_after false (joined_lines (setting (x ∷ xs) value ∷ ls))) (some p)
        ≡ apply_lines (lines_after false (joined_lines ls)) (apply_setting (x ∷ xs) value p)
  read-setting value ls p v =
      apply_lines-setting (x ∷ xs) value ls p k v (key_value_word x xs value w l v)

apply_setting_target :
    (value : List ℕ) (p : ProgramConfig) → apply_setting (codes "target") value p ≡ some p
unfolding apply_setting
apply_setting_target value p = refl

apply_setting_testpoint :
    (value : List ℕ) (p : ProgramConfig)
    → apply_setting (codes "on_line_testpoint_number") value p ≡ some p
unfolding apply_setting
apply_setting_testpoint value p = refl

apply_setting_measurements :
    (value : List ℕ) (p : ProgramConfig)
    → apply_setting (codes "number_of_measurements_per_sweep") value p ≡ some p
unfolding apply_setting
apply_setting_measurements value p = refl

apply_setting_sweeps :
    (value : List ℕ) (p : ProgramConfig)
    → apply_setting (codes "number_of_sweeps_per_second") value p
      ≡ with_sweeps p (read_int (or_text value (codes "4")))
unfolding apply_setting
apply_setting_sweeps value p = refl

apply_setting_oscillator :
    (value : List ℕ) (p : ProgramConfig)
    → apply_setting (codes "external_lo") value p
      ≡ with_oscillator p (read_float (or_text value (codes "0")))
unfolding apply_setting
apply_setting_oscillator value p = refl

-- The rate that is written, and the rate that is read.
abbrev pub rate : ℕ → Option ℤ
rate n = if 800 % n == 0 then some (pos (800 / n)) else none

read_int-sweeps_text : (n : ℕ) → 0 < n → read_int (or_text (sweeps_text n) (codes "4")) ≡ rate n
unfolding sweeps_text
read_int-sweeps_text n lt =
    let shown : (n == 0) ≡ false = ground arith in
    elim (Bool-cases (800 % n == 0)) [
      | inl e ↦ simp (shown, e) (read_int-decimal (800 / n))
      | inr e ↦
          simp (shown, e)
            (read_int_pointed (round_div (800 * ten_to (places n)) n / ten_to (places n))
              (without_zeros
                (padded (places n) (round_div (800 * ten_to (places n)) n % ten_to (places n))))
              (fraction_solid (places n)
                (round_div (800 * ten_to (places n)) n % ten_to (places n))))
    ]

sweeps_solid : (n : ℕ) → is_solid (sweeps_text n) ≡ true
unfolding sweeps_text
sweeps_solid n = go (n == 0) (800 % n == 0)
  where
    go :
        (a b : Bool)
        → is_solid (
            if a
            then codes "0"
            else if b
            then decimal (800 / n)
            else decimal (round_div (800 * ten_to (places n)) n / ten_to (places n))
              ++ 46
                ∷ without_zeros
                    (padded (places n) (round_div (800 * ten_to (places n)) n % ten_to (places n))))
          ≡ true
    go true b = refl
    go false true = decimal_solid (800 / n)
    go false false =
        solid-append (decimal (round_div (800 * ten_to (places n)) n / ten_to (places n)))
          (46
            ∷ without_zeros
                (padded (places n) (round_div (800 * ten_to (places n)) n % ten_to (places n))))
          (decimal_solid (round_div (800 * ten_to (places n)) n / ten_to (places n)))
          (fraction_solid (places n) (round_div (800 * ten_to (places n)) n % ten_to (places n)))

or_text_shown : (xs other : List ℕ) → 1 ≤ length xs → or_text xs other ≡ xs
or_text_shown [] other le = absurd (omega arith)
or_text_shown (x ∷ xs) other le = refl

read_float-or_text : (f : ℕ) → read_float (or_text (mhz 1 f) (codes "0")) ≡ some (float f)
read_float-or_text f =
    ap read_float (or_text_shown (mhz 1 f) (codes "0") shown) ∙ read_float-mhz 1 f
  where
    shown : 1 ≤ length (mhz 1 f)
    shown = omega (
      arith,
      length-append (padded 1 (f / 1000)) (46 ∷ padded 3 (f % 1000)),
      length-padded_at_least 1 (f / 1000),
    )

-- What is known before the channels are read.
abbrev pub started : ℕ → Option ℤ → Option ProgramConfig
started lo none = none
started lo (some r) =
    some (record { indexed = []; sweeps_per_second = r; local_oscillator = float lo })

read_oscillator_line :
    (ls : List (List ℕ)) (lo : ℕ) (r : Option ℤ)
    → apply_lines
        (lines_after false (joined_lines (setting (codes "external_lo") (mhz 1 lo) ∷ ls)))
        (with_sweeps empty_config r)
      ≡ apply_lines (lines_after false (joined_lines ls)) (started lo r)
read_oscillator_line ls lo none = refl
read_oscillator_line ls lo (some r) =
    read-setting 101 (codes "xternal_lo") refl refl refl (mhz 1 lo) ls
      (record empty_config { sweeps_per_second = r }) (mhz_solid 1 lo)
    ∙ ap (apply_lines (lines_after false (joined_lines ls))) (
        apply_setting_oscillator (mhz 1 lo) (record empty_config { sweeps_per_second = r })
        ∙ ap (with_oscillator (record empty_config { sweeps_per_second = r }))
            (read_float-or_text lo))

-- The rate's line, and the one after it.
read_rate_lines :
    (ls : List (List ℕ)) (n lo : ℕ)
    → 0 < n
    → apply_lines
        (lines_after false (
          joined_lines (
            setting (codes "number_of_sweeps_per_second") (sweeps_text n)
            ∷ setting (codes "external_lo") (mhz 1 lo)
            ∷ ls)))
        (some empty_config)
      ≡ apply_lines (lines_after false (joined_lines ls)) (started lo (rate n))
read_rate_lines ls n lo lt =
    let more = setting (codes "external_lo") (mhz 1 lo) ∷ ls in
    read-setting 110 (codes "umber_of_sweeps_per_second") refl refl refl (sweeps_text n) more
      empty_config (sweeps_solid n)
    ∙ ap (apply_lines (lines_after false (joined_lines more))) (
        apply_setting_sweeps (sweeps_text n) empty_config
        ∙ ap (with_sweeps empty_config) (read_int-sweeps_text n lt))
    ∙ read_oscillator_line ls lo (rate n)

-- The lines that say nothing the program keeps.
read_count_lines :
    (ls : List (List ℕ)) (n : ℕ)
    → apply_lines
        (lines_after false (
          joined_lines (
            setting (codes "target") (codes "CALLISTO")
            ∷ setting (codes "on_line_testpoint_number") (decimal (n / 2))
            ∷ setting (codes "number_of_measurements_per_sweep") (decimal n)
            ∷ ls)))
        (some empty_config)
      ≡ apply_lines (lines_after false (joined_lines ls)) (some empty_config)
read_count_lines ls n =
    let measurements = setting (codes "number_of_measurements_per_sweep") (decimal n) ∷ ls in
    let testpoint = setting (codes "on_line_testpoint_number") (decimal (n / 2)) ∷ measurements in
    read-setting 116 (codes "arget") refl refl refl (codes "CALLISTO") testpoint empty_config refl
    ∙ ap (apply_lines (lines_after false (joined_lines testpoint)))
        (apply_setting_target (codes "CALLISTO") empty_config)
    ∙ read-setting 111 (codes "n_line_testpoint_number") refl refl refl (decimal (n / 2))
        measurements empty_config (decimal_solid (n / 2))
    ∙ ap (apply_lines (lines_after false (joined_lines measurements)))
        (apply_setting_testpoint (decimal (n / 2)) empty_config)
    ∙ read-setting 110 (codes "umber_of_measurements_per_sweep") refl refl refl (decimal n) ls
        empty_config (decimal_solid n)
    ∙ ap (apply_lines (lines_after false (joined_lines ls)))
        (apply_setting_measurements (decimal n) empty_config)

abbrev pub read_back : List ℕ → ℕ → Option ℤ → Option Program
read_back fs lo none = none
read_back fs lo (some r) =
    some (record { frequencies = map float fs; sweeps_per_second = r; local_oscillator = float lo })

read_channels :
    (lc fs : List ℕ) (lo : ℕ) (r : Option ℤ)
    → finished
        (apply_lines (lines_after false (joined_lines (channel_lines lc 0 fs))) (started lo r))
      ≡ read_back fs lo r
read_channels lc fs lo none = refl
read_channels lc fs lo (some r) =
    ap finished (
      read-channel_lines lc 0 fs
        (record { indexed = []; sweeps_per_second = r; local_oscillator = float lo }))
    ∙ ap (λ gs. read_back_of gs) (ap values (by_index-indexed_from 0 fs) ∙ values-indexed_from 0 fs)
  where
    read_back_of : List Float → Option Program
    read_back_of gs =
        some (record { frequencies = gs; sweeps_per_second = r; local_oscillator = float lo })

key_value_comment :
    key_value (strip (codes "// frequency program exported by e-Callisto NG")) ≡ none
unfolding key_value
key_value_comment = refl

parse_frequency_program-program_text :
    (fs lc : List ℕ) (lo : ℕ)
    → 0 < length fs
    → parse_frequency_program (program_text fs lc lo) ≡ (
        if 800 % length fs == 0
        then some (record {
          frequencies = map float fs;
          sweeps_per_second = pos (800 / length fs);
          local_oscillator = float lo;
        })
        else none)
unfolding parse_frequency_program program_text
parse_frequency_program-program_text fs lc lo lt =
    ap (λ l. finished (apply_lines l (some empty_config)))
      (lines_after_line false 47 (codes "/ frequency program exported by e-Callisto NG")
        (joined_lines (before_channels (channel_lines lc 0 fs))) refl)
    ∙ ap
        (λ m. finished (
          apply_lines (lines_after false (joined_lines (before_channels (channel_lines lc 0 fs))))
            (apply_match m empty_config)))
        key_value_comment
    ∙ ap finished (
        read_count_lines
          (setting (codes "number_of_sweeps_per_second") (sweeps_text (length fs))
            ∷ setting (codes "external_lo") (mhz 1 lo)
            ∷ channel_lines lc 0 fs)
          (length fs)
        ∙ read_rate_lines (channel_lines lc 0 fs) (length fs) lo lt)
    ∙ read_channels lc fs lo (rate (length fs))
    ∙ read_back_rate (800 % length fs == 0)
  where
    before_channels : List (List ℕ) → List (List ℕ)
    before_channels ls =
        setting (codes "target") (codes "CALLISTO")
        ∷ setting (codes "on_line_testpoint_number") (decimal (length fs / 2))
        ∷ setting (codes "number_of_measurements_per_sweep") (decimal (length fs))
        ∷ setting (codes "number_of_sweeps_per_second") (sweeps_text (length fs))
        ∷ setting (codes "external_lo") (mhz 1 lo)
        ∷ ls

    read_back_rate :
        (b : Bool)
        → read_back fs lo (if b then some (pos (800 / length fs)) else none) ≡ (
            if b
            then some (record {
              frequencies = map float fs;
              sweeps_per_second = pos (800 / length fs);
              local_oscillator = float lo;
            })
            else none)
    read_back_rate true = refl
    read_back_rate false = refl

length-map : {A B : Type 0} (f : A → B) (xs : List A) → length (map f xs) ≡ length xs
length-map f [] = refl
length-map f (x ∷ xs) = ap suc (length-map f xs)

map-map :
    {A B C : Type 0} (g : B → C) (f : A → B) (xs : List A)
    → map g (map f xs) ≡ map (λ x. g (f x)) xs
map-map g f [] = refl
map-map g f (x ∷ xs) = ap (λ t. g (f x) ∷ t) (map-map g f xs)

-- A program with at least one channel, of frequencies that are any whole multiples of 2^-s MHz, that
-- is written and read again comes back with the frequencies and the oscillator rounded to whole
-- kilohertz, half to even, in their order, and the rate 800/n if its n channels divide 800, and is
-- refused with a ValueError if they do not.
pub parse_frequency_program-build_frequency_program_cfg :
    (s : ℕ) (fs lc : List ℕ) (lo : ℕ)
    → 0 < length fs
    → parse_frequency_program (build_frequency_program_cfg s fs lc lo) ≡ (
        if 800 % length fs == 0
        then some (record {
          frequencies = map (λ f. float (kilohertz s f)) fs;
          sweeps_per_second = pos (800 / length fs);
          local_oscillator = float (kilohertz s lo);
        })
        else none)
unfolding build_frequency_program_cfg
parse_frequency_program-build_frequency_program_cfg s fs lc lo lt =
    parse_frequency_program-program_text (map (kilohertz s) fs) lc (kilohertz s lo)
      (subst (λ n. 0 < n) (sym (length-map (kilohertz s) fs)) lt)
    ∙ ap
        (λ n.
          if 800 % n == 0
          then some (record {
            frequencies = map float (map (kilohertz s) fs);
            sweeps_per_second = pos (800 / n);
            local_oscillator = float (kilohertz s lo);
          })
          else none)
        (length-map (kilohertz s) fs)
    ∙ ap
        (λ gs.
          if 800 % length fs == 0
          then some (record {
            frequencies = gs;
            sweeps_per_second = pos (800 / length fs);
            local_oscillator = float (kilohertz s lo);
          })
          else none)
        (map-map float (kilohertz s) fs)

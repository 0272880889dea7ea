-- ===== src/Legacy/Schedule.antt =====
-- What the exporter writes, the importer reads.
use e_callisto_ng.Prelude.Text.{codes}
use e_callisto_ng.Prelude.Decimal.{
  IsDigit, length-padded_at_least, padded, padded-IsDigit, padded-value, value_on,
}
use e_callisto_ng.Prelude.Split.{lacks, split, split_first, split_lacking}
use e_callisto_ng.Prelude.Lines.{
  is_break, is_one_line, is_space, keep_unless_blank, lines_after, lines_after_line, lstrip, rstrip,
  rstrip-append, strip,
}
use e_callisto_ng.Prelude.Int.{pos}
use e_callisto_ng.Prelude.{
  ℕ, ◌+◌, ◌-◌, ◌*◌, ◌≤◌, ◌≡◌, refl, sym, ap, ◌∙◌, Bool, true, false, not, ◌&&◌, some, List, [], ◌∷◌,
  ◌++◌, all-append, All, map, length, if◌then◌else◌, ◌==◌, arith,
}
use e_callisto_ng.Legacy.{
  ExportEntry, ScheduleEntry, build_scheduler_cfg, by_time, entry_lines, insert_entry, is_digit,
  joined_lines, kept, line_of, of_line, of_parts, parse_scheduler_cfg, program_column, program_of,
  read_digits, read_int, read_lines, text_le, upper, with_seconds,
}

-- Neither a comma nor the end of a line.
abbrev pub is_plain : List ℕ → Bool
is_plain text = lacks 44 text && is_one_line text

-- An entry whose columns can stand in a line: no commas and no ends of lines, a time that begins with
-- a digit, a mode of one character that is not blank and in upper case, and a program without
-- blanks at its ends.
pub record IsPlain (e : ExportEntry) : Type 0 where
  pub first : ℕ
  pub others : List ℕ
  pub spelled : e.time_utc ≡ first ∷ others
  pub begins : is_digit first ≡ true
  pub time : is_plain e.time_utc ≡ true
  pub mode : ℕ
  pub one : e.mode ≡ mode ∷ []
  pub mode_plain : is_plain (mode ∷ []) ≡ true
  pub mode_shown : is_space mode ≡ false
  pub mode_upper : upper mode ≡ mode
  pub program : is_plain e.program ≡ true
  pub program_left : lstrip e.program ≡ e.program
  pub program_right : rstrip e.program ≡ e.program

abbrev pub first_char : List ℕ → ℕ
first_char [] = 0
first_char (c ∷ cs) = c

-- The entry that is read back.
abbrev pub imported : ExportEntry → ScheduleEntry
imported e = record {
  time_utc = with_seconds e.time_utc;
  focus_code = pos e.focus_code;
  mode = first_char e.mode;
  program = e.program;
}

read_digits_lem :
    (after : Bool) (acc d : ℕ) (ds : List ℕ)
    → All IsDigit (d ∷ ds)
    → read_digits after acc (d ∷ ds) ≡ some (value_on acc (d ∷ ds))
read_digits_lem after acc d [] h = ground (arith, h.0)
read_digits_lem after acc d (e ∷ ds) h =
    let rest = read_digits_lem true (acc * 10 + (d - 48)) e ds h.1 in
    let digit : is_digit d ≡ true = ground (arith, h.0) in rw digit rest

digit-space : (d : ℕ) → is_digit d ≡ true → is_space d ≡ false
digit-space d h = ground arith

rstrip_digits : (ds : List ℕ) → All IsDigit ds → rstrip ds ≡ ds
rstrip_digits [] h = refl
rstrip_digits (d ∷ ds) h =
    let shown : is_space d ≡ false = ground (arith, h.0) in
    ap (keep_unless_blank d) (rstrip_digits ds h.1) ∙ last d ds shown
  where
    last : (d : ℕ) (ds : List ℕ) → is_space d ≡ false → keep_unless_blank d ds ≡ d ∷ ds
    last d [] e = rw e refl
    last d (x ∷ xs) e = refl

pub read_int_digits :
    (d : ℕ) (ds : List ℕ)
    → All IsDigit (d ∷ ds)
    → read_int (d ∷ ds) ≡ some (pos (value_on 0 (d ∷ ds)))
unfolding read_int
read_int_digits d ds h =
    let shown : is_space d ≡ false = ground (arith, h.0) in
    let minus : (d == 45) ≡ false = ground (arith, h.0) in
    let plus : (d == 43) ≡ false = ground (arith, h.0) in
    simp (shown, rstrip_digits (d ∷ ds) h, minus, plus, read_digits_lem false 0 d ds h) refl

read_int-padded : (n : ℕ) → read_int (padded 2 n) ≡ some (pos n)
read_int-padded n =
    go (padded 2 n) (padded-IsDigit 2 n) (length-padded_at_least 2 n)
    ∙ ap (λ v. some (pos v)) (padded-value 2 n)
  where
    go : (xs : List ℕ) → All IsDigit xs → 2 ≤ length xs → read_int xs ≡ some (pos (value_on 0 xs))
    go [] h le = absurd (omega arith)
    go (x ∷ xs) h le = read_int_digits x xs h

pub digits_plain : (xs : List ℕ) → All IsDigit xs → is_plain xs ≡ true
digits_plain [] h = refl
digits_plain (x ∷ xs) h =
    let rest = digits_plain xs h.1 in
    let comma : (x == 44) ≡ false = ground (arith, h.0) in
    let break : is_break x ≡ false = ground (arith, h.0) in simp (comma, break) rest

pub is_plain-append :
    (xs ys : List ℕ) → is_plain xs ≡ true → is_plain ys ≡ true → is_plain (xs ++ ys) ≡ true
is_plain-append xs ys h k =
    let commas = all-append (λ c. not (c == 44)) xs ys (left _ _ h) (left _ _ k) in
    let breaks = all-append (λ c. not (is_break c)) xs ys (right _ _ h) (right _ _ k) in
    rw commas breaks
  where
    left : (a b : Bool) → (a && b) ≡ true → a ≡ true
    left true b h = refl
    left false b h = cc

    right : (a b : Bool) → (a && b) ≡ true → b ≡ true
    right true b h = h
    right false b h = cc

with_seconds_plain : (time : List ℕ) → is_plain time ≡ true → is_plain (with_seconds time) ≡ true
with_seconds_plain time h = go (length time == 8)
  where
    go : (b : Bool) → is_plain (if b then time else time ++ codes ":00") ≡ true
    go true = h
    go false = is_plain-append time (codes ":00") h refl

with_seconds_first : (c : ℕ) (cs : List ℕ) → (ds : List ℕ) × (with_seconds (c ∷ cs) ≡ c ∷ ds)
with_seconds_first c cs = go (length (c ∷ cs) == 8)
  where
    go : (b : Bool) → (ds : List ℕ) × ((if b then c ∷ cs else (c ∷ cs) ++ codes ":00") ≡ c ∷ ds)
    go true = (cs, refl)
    go false = (cs ++ codes ":00", refl)

plain_lacks : (xs : List ℕ) → is_plain xs ≡ true → lacks 44 xs ≡ true
plain_lacks xs h = go (lacks 44 xs) h
  where
    go : (a : Bool) → (a && is_one_line xs) ≡ true → a ≡ true
    go true h = refl
    go false h = cc

plain_break : (xs : List ℕ) → is_plain xs ≡ true → is_one_line xs ≡ true
plain_break xs h = go (lacks 44 xs) h
  where
    go : (a : Bool) → (a && is_one_line xs) ≡ true → is_one_line xs ≡ true
    go true h = h
    go false h = cc

module _ (e : ExportEntry) (h : IsPlain e) where
  abbrev tail : List ℕ
  tail = program_column e.program

  tail_right : rstrip (h.mode ∷ tail) ≡ h.mode ∷ tail
  tail_right = go e.program h.program_right
    where
      go :
          (p : List ℕ)
          → rstrip p ≡ p
          → rstrip (h.mode ∷ program_column p) ≡ h.mode ∷ program_column p
      go [] q = rw h.mode_shown refl
      go (c ∷ cs) q = ap (λ r. keep_unless_blank h.mode (keep_unless_blank 44 r)) q

  line_right : rstrip (line_of e) ≡ line_of e
  line_right =
      ap rstrip spelled
      ∙ rstrip-append (with_seconds e.time_utc) 44 (padded 2 e.focus_code ++ 44 ∷ h.mode ∷ tail) (
          rstrip-append (44 ∷ padded 2 e.focus_code) 44 (h.mode ∷ tail)
            (rstrip-append (44 ∷ []) h.mode tail tail_right))
      ∙ sym spelled
    where
      spelled :
          line_of e ≡ with_seconds e.time_utc ++ 44 ∷ (padded 2 e.focus_code ++ 44 ∷ h.mode ∷ tail)
      spelled =
          ap (λ m. with_seconds e.time_utc ++ 44 ∷ (padded 2 e.focus_code ++ 44 ∷ (m ++ tail)))
            h.one

  focus_plain : is_plain (padded 2 e.focus_code) ≡ true
  focus_plain = digits_plain (padded 2 e.focus_code) (padded-IsDigit 2 e.focus_code)

  line_split :
      split 44 (line_of e)
      ≡ with_seconds e.time_utc ∷ padded 2 e.focus_code ∷ split 44 (h.mode ∷ tail)
  line_split =
      split_first 44 (with_seconds e.time_utc) _
        (plain_lacks (with_seconds e.time_utc) (with_seconds_plain e.time_utc h.time))
      ∙ ap (with_seconds e.time_utc ∷◌) (
          split_first 44 (padded 2 e.focus_code) _ (plain_lacks (padded 2 e.focus_code) focus_plain)
          ∙ ap (λ m. padded 2 e.focus_code ∷ split 44 (m ++ tail)) h.one)

  mode_split :
      (r : List (List ℕ)) × (split 44 (h.mode ∷ tail) ≡ (h.mode ∷ []) ∷ r)
      × (program_of r ≡ e.program)
  mode_split = go e.program (plain_lacks e.program h.program) h.program_left h.program_right
    where
      go :
          (p : List ℕ)
          → lacks 44 p ≡ true
          → lstrip p ≡ p
          → rstrip p ≡ p
          → (r : List (List ℕ)) × (split 44 (h.mode ∷ program_column p) ≡ (h.mode ∷ []) ∷ r)
            × (program_of r ≡ p)
      go [] q l r =
          ([], split_lacking 44 (h.mode ∷ []) (plain_lacks (h.mode ∷ []) h.mode_plain), refl)
      go (c ∷ cs) q l r = (
        (c ∷ cs) ∷ [],
        split_first 44 (h.mode ∷ []) (c ∷ cs) (plain_lacks (h.mode ∷ []) h.mode_plain)
            ∙ ap (λ t. (h.mode ∷ []) ∷ t) (split_lacking 44 (c ∷ cs) q),
        ap rstrip l ∙ r,
      )

  mode_strip : strip (h.mode ∷ []) ≡ h.mode ∷ []
  mode_strip = simp h.mode_shown refl

  of_parts_line : of_parts (split 44 (line_of e)) ≡ some (imported e)
  of_parts_line =
      let (r, cut, program) = mode_split in
      ap of_parts line_split
      ∙ ap (λ m. of_parts (with_seconds e.time_utc ∷ padded 2 e.focus_code ∷ m)) cut
      ∙ rw (read_int-padded e.focus_code) (rw mode_strip (simp (h.mode_upper, program, h.one) refl))

  of_line_line : of_line (strip (line_of e)) ≡ some (imported e)
  of_line_line =
      let (ds, begins) = with_seconds_first h.first h.others in
      let front : with_seconds e.time_utc ≡ h.first ∷ ds = ap with_seconds h.spelled ∙ begins in
      let rest = 44 ∷ (padded 2 e.focus_code ++ 44 ∷ (e.mode ++ tail)) in
      let whole : line_of e ≡ h.first ∷ (ds ++ rest) = ap (λ t. t ++ rest) front in
      ap (λ l. of_line (rstrip (lstrip l))) whole
      ∙ simp (digit-space h.first h.begins) (
          ap of_line (ap rstrip (sym whole) ∙ line_right ∙ whole)
          ∙ simp h.begins (ap (λ l. of_parts (split 44 l)) (sym whole) ∙ of_parts_line))

  tail_break : is_one_line tail ≡ true
  tail_break = go e.program (plain_break e.program h.program)
    where
      go : (p : List ℕ) → is_one_line p ≡ true → is_one_line (program_column p) ≡ true
      go [] q = refl
      go (c ∷ cs) q = q

  line_break : is_one_line (line_of e) ≡ true
  line_break =
      all-append (λ c. not (is_break c)) (with_seconds e.time_utc)
        (44 ∷ (padded 2 e.focus_code ++ 44 ∷ (e.mode ++ tail)))
        (plain_break (with_seconds e.time_utc) (with_seconds_plain e.time_utc h.time))
        (all-append (λ c. not (is_break c)) (padded 2 e.focus_code) (44 ∷ (e.mode ++ tail))
          (plain_break (padded 2 e.focus_code) focus_plain)
          (ap (λ m. is_one_line (m ++ tail)) h.one
            ∙ all-append (λ c. not (is_break c)) (h.mode ∷ []) tail
                (plain_break (h.mode ∷ []) h.mode_plain) tail_break))

All-insert :
    (P : ExportEntry → Type 0) (e : ExportEntry) (es : List ExportEntry)
    → P e
    → All P es
    → All P (insert_entry e es)
All-insert P e [] p h = (p, tt)
All-insert P e (f ∷ fs) p h = go (text_le e.time_utc f.time_utc) (All-insert P e fs p h.1)
  where
    go :
        (b : Bool)
        → All P (insert_entry e fs)
        → All P (if b then e ∷ f ∷ fs else f ∷ insert_entry e fs)
    go true rest = (p, h)
    go false rest = (h.0, rest)

All-by_time : (P : ExportEntry → Type 0) (es : List ExportEntry) → All P es → All P (by_time es)
All-by_time P [] h = tt
All-by_time P (e ∷ es) h = All-insert P e (by_time es) h.0 (All-by_time P es h.1)

read-entry_lines :
    (es : List ExportEntry)
    → All IsPlain es
    → read_lines (lines_after false (joined_lines (entry_lines es))) ≡ map imported es
read-entry_lines [] h = refl
read-entry_lines (e ∷ es) h =
    let (ds, begins) = with_seconds_first h.0.first h.0.others in
    let rest = 44 ∷ (padded 2 e.focus_code ++ 44 ∷ (e.mode ++ program_column e.program)) in
    let whole : line_of e ≡ h.0.first ∷ (ds ++ rest) =
      ap (λ t. t ++ rest) (ap with_seconds h.0.spelled ∙ begins) in
    let more = joined_lines (entry_lines es) in
    ap (λ l. read_lines (lines_after false (l ++ 13 ∷ 10 ∷ more))) whole
    ∙ ap read_lines (
        lines_after_line false h.0.first (ds ++ rest) more
          (ap is_one_line (sym whole) ∙ line_break e h.0))
    ∙ ap (λ l. read_lines (l ∷ lines_after false more)) (sym whole)
    ∙ ap (λ o. kept o (read_lines (lines_after false more))) (of_line_line e h.0)
    ∙ ap (λ r. imported e ∷ r) (read-entry_lines es h.1)

-- Reading the file that was written for any plain entries gives them back in the order of their times
-- as text, each with its time to the second.
pub parse_scheduler_cfg-build_scheduler_cfg :
    (entries : List ExportEntry)
    → All IsPlain entries
    → parse_scheduler_cfg (build_scheduler_cfg entries) ≡ map imported (by_time entries)
unfolding parse_scheduler_cfg build_scheduler_cfg
parse_scheduler_cfg-build_scheduler_cfg entries h =
    ap read_lines (
      lines_after_line false 47 (codes "/ scheduler.cfg exported by e-Callisto NG")
        (joined_lines (entry_lines (by_time entries))) refl)
    ∙ read-entry_lines (by_time entries) (All-by_time IsPlain entries h)

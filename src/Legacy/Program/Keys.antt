-- ===== src/Legacy/Program/Keys.antt =====
-- A line that holds a setting is read as that setting.
use e_callisto_ng.Prelude.Decimal.{IsDigit}
use e_callisto_ng.Prelude.Lines.{
  is_break, is_one_line, is_space, keep_unless_blank, lines_after, lines_after_line, rstrip, strip,
}
use e_callisto_ng.Prelude.{
  ℕ, ◌+◌, ◌-◌, ◌*◌, ◌≡◌, refl, ap, ◌∙◌, Bool, true, false, not, ◌&&◌, ◌||◌, none, some, List, [],
  ◌∷◌, ◌++◌, all, all-append, All, ◌==◌, arith, Bool-cases, inl, inr,
}
use e_callisto_ng.Legacy.{is_digit, joined_lines, positive, read_digits, read_int, read_signed}
use e_callisto_ng.Legacy.Program.{
  ProgramConfig, after_word, apply_lines, apply_match, apply_setting, before_comment, is_word,
  keep_unless_zero, key_value, lower, lowered, setting, without_zeros, word_of,
}

-- No white space, and no slash.
abbrev pub is_solid : List ℕ → Bool
is_solid text = all (λ c. not (is_space c || c == 47)) text

pub solid-append :
    (xs ys : List ℕ) → is_solid xs ≡ true → is_solid ys ≡ true → is_solid (xs ++ ys) ≡ true
solid-append xs ys h k = all-append (λ c. not (is_space c || c == 47)) xs ys h k

pub digits_solid : (xs : List ℕ) → All IsDigit xs → is_solid xs ≡ true
digits_solid [] h = refl
digits_solid (x ∷ xs) h =
    let rest = digits_solid xs h.1 in
    let shown : is_space x ≡ false = ground (arith, h.0) in
    let slash : (x == 47) ≡ false = ground (arith, h.0) in simp (shown, slash) rest

head_shown : (c : ℕ) (cs : List ℕ) → is_solid (c ∷ cs) ≡ true → is_space c ≡ false
head_shown c cs h = go (is_space c) (c == 47) (is_solid cs) h
  where
    go : (a b r : Bool) → (not (a || b) && r) ≡ true → a ≡ false
    go true b r h = cc
    go false b r h = refl

head_slash : (c : ℕ) (cs : List ℕ) → is_solid (c ∷ cs) ≡ true → (c == 47) ≡ false
head_slash c cs h = go (is_space c) (c == 47) (is_solid cs) h
  where
    go : (a b r : Bool) → (not (a || b) && r) ≡ true → b ≡ false
    go true b r h = cc
    go false true r h = cc
    go false false r h = refl

rest_solid : (c : ℕ) (cs : List ℕ) → is_solid (c ∷ cs) ≡ true → is_solid cs ≡ true
rest_solid c cs h = go (not (is_space c || c == 47)) (is_solid cs) h
  where
    go : (a r : Bool) → (a && r) ≡ true → r ≡ true
    go true r h = h
    go false r h = cc

rstrip_solid : (xs : List ℕ) → is_solid xs ≡ true → rstrip xs ≡ xs
rstrip_solid [] h = refl
rstrip_solid (c ∷ cs) h =
    ap (keep_unless_blank c) (rstrip_solid cs (rest_solid c cs h)) ∙ last c cs (head_shown c cs h)
  where
    last : (c : ℕ) (cs : List ℕ) → is_space c ≡ false → keep_unless_blank c cs ≡ c ∷ cs
    last c [] e = rw e refl
    last c (d ∷ ds) e = refl

pub strip_solid : (xs : List ℕ) → is_solid xs ≡ true → strip xs ≡ xs
strip_solid [] h = refl
strip_solid (c ∷ cs) h = rw (head_shown c cs h) (rstrip_solid (c ∷ cs) h)

pub before_comment_solid : (xs : List ℕ) → is_solid xs ≡ true → before_comment xs ≡ xs
before_comment_solid [] h = refl
before_comment_solid (c ∷ cs) h =
    let other : (47 == c) ≡ false = turned c (head_slash c cs h) in
    simp other (ap (c ∷◌) (before_comment_solid cs (rest_solid c cs h)))
  where
    turned : (c : ℕ) → (c == 47) ≡ false → (47 == c) ≡ false
    turned c h = ground arith

one_line_solid : (xs : List ℕ) → is_solid xs ≡ true → is_one_line xs ≡ true
one_line_solid [] h = refl
one_line_solid (c ∷ cs) h =
    let break = no_break c (head_shown c cs h) in simp break (one_line_solid cs (rest_solid c cs h))
  where
    no_break : (c : ℕ) → is_space c ≡ false → is_break c ≡ false
    no_break c h = ground arith

word_of_word :
    (xs rest : List ℕ) → all is_word xs ≡ true → word_of (xs ++ 93 ∷ rest) ≡ (xs, 93 ∷ rest)
word_of_word [] rest h = refl
word_of_word (x ∷ xs) rest h =
    let (first, more) = both (is_word x) (all is_word xs) h in
    simp (first, word_of_word xs rest more) refl
  where
    both : (a b : Bool) → (a && b) ≡ true → (a ≡ true) × (b ≡ true)
    both true b h = (refl, h)
    both false b h = cc

pub key_value_word :
    (x : ℕ) (xs value : List ℕ)
    → all is_word (x ∷ xs) ≡ true
    → lowered (x ∷ xs) ≡ x ∷ xs
    → is_solid value ≡ true
    → key_value (setting (x ∷ xs) value) ≡ some (x ∷ xs, value)
unfolding key_value
key_value_word x xs value h low v =
    ap after_word (word_of_word (x ∷ xs) (61 ∷ value) h)
    ∙ simp (low, before_comment_solid value v, strip_solid value v) refl

word_digits : (xs : List ℕ) → All IsDigit xs → all is_word xs ≡ true
word_digits [] h = refl
word_digits (x ∷ xs) h =
    let digit : is_word x ≡ true = ground (arith, h.0) in simp (digit, word_digits xs h.1) refl

lowered_digits : (xs : List ℕ) → All IsDigit xs → lowered xs ≡ xs
lowered_digits [] h = refl
lowered_digits (x ∷ xs) h =
    let same : lower x ≡ x = ground (arith, h.0) in simp (same, lowered_digits xs h.1) refl

pub key_value_digits :
    (x : ℕ) (xs value : List ℕ)
    → All IsDigit (x ∷ xs)
    → is_solid value ≡ true
    → key_value (setting (x ∷ xs) value) ≡ some (x ∷ xs, value)
key_value_digits x xs value h v =
    key_value_word x xs value (word_digits (x ∷ xs) h) (lowered_digits (x ∷ xs) h) v

-- A digit, and then a point, is no `int`.
pub read_digits_point :
    (after : Bool) (acc : ℕ) (xs rest : List ℕ)
    → All IsDigit xs
    → read_digits after acc (xs ++ 46 ∷ rest) ≡ none
read_digits_point true acc [] rest h = refl
read_digits_point false acc [] rest h = refl
read_digits_point after acc (x ∷ xs) rest h =
    let digit : is_digit x ≡ true = ground (arith, h.0) in
    rw digit (read_digits_point true (acc * 10 + (x - 48)) xs rest h.1)

pub read_int_point :
    (x : ℕ) (xs rest : List ℕ)
    → All IsDigit (x ∷ xs)
    → is_solid rest ≡ true
    → read_int ((x ∷ xs) ++ 46 ∷ rest) ≡ none
unfolding read_int
read_int_point x xs rest h r =
    let minus : (x == 45) ≡ false = ground (arith, h.0) in
    let plus : (x == 43) ≡ false = ground (arith, h.0) in
    ap read_signed (
      strip_solid ((x ∷ xs) ++ 46 ∷ rest)
        (solid-append (x ∷ xs) (46 ∷ rest) (digits_solid (x ∷ xs) h) r))
    ∙ simp (minus, plus) (ap positive (read_digits_point false 0 (x ∷ xs) rest h))

keep_unless_zero_solid :
    (c : ℕ) (cs r : List ℕ)
    → is_solid (c ∷ cs) ≡ true
    → is_solid r ≡ true
    → is_solid (keep_unless_zero c r) ≡ true
keep_unless_zero_solid c cs [] h k = one (head_shown c cs h) (head_slash c cs h)
  where
    one : is_space c ≡ false → (c == 47) ≡ false → is_solid (keep_unless_zero c []) ≡ true
    one shown slash = elim (Bool-cases (c == 48)) [
      | inl e ↦ simp e refl
      | inr e ↦ simp (e, shown, slash) refl
    ]
keep_unless_zero_solid c cs (d ∷ ds) h k = simp (head_shown c cs h, head_slash c cs h) k

pub without_zeros_solid : (xs : List ℕ) → is_solid xs ≡ true → is_solid (without_zeros xs) ≡ true
without_zeros_solid [] h = refl
without_zeros_solid (c ∷ cs) h =
    keep_unless_zero_solid c cs (without_zeros cs) h (without_zeros_solid cs (rest_solid c cs h))

-- One line more, for a setting that is read as itself.
pub apply_lines-setting :
    (key value : List ℕ) (ls : List (List ℕ)) (p : ProgramConfig)
    → is_solid key ≡ true
    → is_solid value ≡ true
    → key_value (setting key value) ≡ some (key, value)
    → apply_lines (lines_after false (joined_lines (setting key value ∷ ls))) (some p)
      ≡ apply_lines (lines_after false (joined_lines ls)) (apply_setting key value p)
apply_lines-setting key value ls p k v e =
    let solid : is_solid (setting key value) ≡ true = solid-append key (93 ∷ 61 ∷ value) k v in
    ap (λ l. apply_lines l (some p))
      (lines_after_line false 91 (key ++ 93 ∷ 61 ∷ value) (joined_lines ls)
        (one_line_solid (setting key value) solid))
    ∙ ap (λ l. apply_lines (lines_after false (joined_lines ls)) (apply_match (key_value l) p))
        (strip_solid (setting key value) solid)
    ∙ ap (λ m. apply_lines (lines_after false (joined_lines ls)) (apply_match m p)) e

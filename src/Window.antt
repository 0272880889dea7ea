-- ===== src/Window.antt =====
-- A budget of attempts in a sliding window of time: the deque of `_recover` in
-- src/ecallisto_ng/drivers/callisto/driver.py and that of `consider` in
-- src/ecallisto_ng/services/auto_recover.py. Times are natural numbers of one unit.
use e_callisto_ng.Prelude.{
  ℕ, ◌+◌, ◌≤◌, ◌<◌, ◌≡◌, refl, ap, sym, ◌∙◌, List, [], ◌∷◌, ◌++◌, append_assoc, All, All-append,
  length, arith, ltb, leb, if◌then◌else◌, ◌&&◌, Bool-cases, inl, inr, ltb→lt,
}

-- Pops from the left what is older than the window.
unfoldable pub expire : ℕ → ℕ → List ℕ → List ℕ
expire width now [] = []
expire width now (t ∷ ts) = if ltb (t + width) now then expire width now ts else t ∷ ts

-- How many of the times lie in the closed window of that width from `a` on.
abbrev pub count_from : ℕ → ℕ → List ℕ → ℕ
count_from a width [] = 0
count_from a width (t ∷ ts) =
    (if leb a t && leb t (a + width) then 1 else 0) + count_from a width ts

-- No window of that width holds more than `budget` of the times.
abbrev pub IsSpaced : ℕ → ℕ → List ℕ → Type 0
IsSpaced width budget log = (a : ℕ) → count_from a width log ≤ budget

abbrev pub IsPast : ℕ → ℕ → ℕ → Type 0
IsPast width now t = t + width < now

count_from-append :
    (a w : ℕ) (xs ys : List ℕ) → count_from a w (xs ++ ys) ≡ count_from a w xs + count_from a w ys
count_from-append a w [] ys = omega arith
count_from-append a w (x ∷ xs) ys = omega (arith, count_from-append a w xs ys)

count_from-le-length : (a w : ℕ) (xs : List ℕ) → count_from a w xs ≤ length xs
count_from-le-length a w [] = omega arith
count_from-le-length a w (x ∷ xs) = ground (arith, count_from-le-length a w xs)

count_from-past :
    (a w now : ℕ) (xs : List ℕ) → All (IsPast w now) xs → now ≤ a + w → count_from a w xs ≡ 0
count_from-past a w now [] h k = refl
count_from-past a w now (x ∷ xs) h k = ground (arith, count_from-past a w now xs h.1 k)

IsPast-later :
    (w now later : ℕ) (xs : List ℕ) → now ≤ later → All (IsPast w now) xs → All (IsPast w later) xs
IsPast-later w now later [] k h = tt
IsPast-later w now later (x ∷ xs) k h = (omega arith, IsPast-later w now later xs k h.1)

-- What is popped is a prefix, and past.
expire-split :
    (w now : ℕ) (ts : List ℕ)
    → (gone : List ℕ) × (gone ++ expire w now ts ≡ ts) × All (IsPast w now) gone
unfolding expire
expire-split w now [] = ([], refl, tt)
expire-split w now (t ∷ ts) = elim (Bool-cases (ltb (t + w) now)) [
  | inl old ↦
      let (gone, e, past) = expire-split w now ts in
      rw old ((t ∷ gone), ap (λ r. t ∷ r) e, (ltb→lt (t + w) now old, past))
  | inr kept ↦ rw kept ([], refl, tt)
]

-- The whole log of attempts, and the history kept of it at time `now`.
pub record IsLimited (width budget now : ℕ) (log history : List ℕ) : Type 0 where
  pub old : List ℕ
  pub split : log ≡ old ++ history
  pub past : All (IsPast width now) old
  pub spaced : IsSpaced width budget log

module _ (w budget : ℕ) where
  pub IsLimited-start : (now : ℕ) → IsLimited w budget now [] []
  IsLimited-start now = record { old = []; split = refl; past = tt; spaced = λ a. omega arith }

  pub IsLimited-later :
      (now later : ℕ) (log hist : List ℕ)
      → now ≤ later
      → IsLimited w budget now log hist
      → IsLimited w budget later log hist
  IsLimited-later now later log hist k h = record {
    old = h.old;
    split = h.split;
    past = IsPast-later w now later h.old k h.past;
    spaced = h.spaced;
  }

  pub IsLimited-expire :
      (now : ℕ) (log hist : List ℕ)
      → IsLimited w budget now log hist
      → IsLimited w budget now log (expire w now hist)
  IsLimited-expire now log hist h =
      let (gone, e, past) = expire-split w now hist in
      record {
        old = h.old ++ gone;
        split = h.split ∙ ap (λ r. h.old ++ r) (sym e) ∙ sym (append_assoc h.old gone _);
        past = All-append (IsPast w now) h.old gone h.past past;
        spaced = h.spaced;
      }

  grant-IsSpaced :
      (now : ℕ) (log hist : List ℕ)
      → IsLimited w budget now log hist
      → length hist < budget
      → IsSpaced w budget (log ++ now ∷ [])
  grant-IsSpaced now log hist h room a = elim (Bool-cases (leb now (a + w))) [
    | inl inside ↦ rw (count_from-append a w log (now ∷ [])) (
        rw h.split (
          rw (count_from-append a w h.old hist)
            (ground (arith, count_from-past a w now h.old h.past, count_from-le-length a w hist))))
    | inr outside ↦ rw (count_from-append a w log (now ∷ [])) (ground (arith, h.spaced a))
  ]

  -- One more attempt while the history has room.
  pub IsLimited-grant :
      (now : ℕ) (log hist : List ℕ)
      → IsLimited w budget now log hist
      → length hist < budget
      → IsLimited w budget now (log ++ now ∷ []) (hist ++ now ∷ [])
  IsLimited-grant now log hist h room = record {
    old = h.old;
    split = ap (λ r. r ++ now ∷ []) h.split ∙ append_assoc h.old hist (now ∷ []);
    past = h.past;
    spaced = grant-IsSpaced now log hist h room;
  }

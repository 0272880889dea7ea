-- ===== src/Callisto/Parser/Stream.antt =====
-- How the input is cut into chunks does not matter to `feed`.
use mathlib.Core.Path.{fun_ext}
use e_callisto_ng.Prelude.{ℕ, ◌≡◌, refl, List, [], ◌∷◌, ◌++◌, append_assoc, arith}
use e_callisto_ng.Callisto.Parser.{Item, StreamParser, Fed, quiet, yields, consume, after, feed}

pub after_assoc :
    (fed : Fed) (f g : StreamParser → Fed) → after (after fed f) g ≡ after fed (λ q. after (f q) g)
unfolding after
after_assoc fed f g =
    ground (arith, append_assoc fed.items (f fed.parser).items (g (f fed.parser).parser).items)

-- Feeding two chunks in turn yields what one chunk of the same bytes yields, and leaves the same
-- parser; after a corrupt sample nothing more is consumed.
pub feed-append :
    (p : StreamParser) (xs ys : List ℕ) → feed p (xs ++ ys) ≡ after (feed p xs) (λ q. feed q ys)
unfolding feed
feed-append p [] ys = refl
feed-append p (x ∷ xs) ys =
    rw (fun_ext (λ (q : StreamParser). feed-append q xs ys))
      (rw (after_assoc (consume p x) (λ q. feed q xs) (λ q. feed q ys)))

pub after-quiet : (q : StreamParser) (g : StreamParser → Fed) → after (quiet q) g ≡ g q
unfolding after
after-quiet q g = refl

abbrev pub ahead : Item → Fed → Fed
ahead item fed = record fed { items = item ∷ fed.items }

pub after-yields :
    (item : Item) (q : StreamParser) (g : StreamParser → Fed)
    → after (yields item q) g ≡ ahead item (g q)
unfolding after
after-yields item q g = refl

pub feed-nil : (p : StreamParser) → feed p [] ≡ quiet p
unfolding feed
feed-nil p = refl

pub feed-cons :
    (p : StreamParser) (b : ℕ) (bs : List ℕ)
    → feed p (b ∷ bs) ≡ after (consume p b) (λ q. feed q bs)
unfolding feed
feed-cons p b bs = refl

-- ===== src/Callisto/Parser/Roundtrip.antt =====
-- What the receiver sends is what the parser yields: sweeps written as hexadecimal digits.
use e_callisto_ng.Prelude.{
  ℕ, ◌<◌, ◌≡◌, refl, sym, ap, subst, ◌∙◌, Bool, false, none, some, List, [], ◌∷◌, ◌++◌, map,
  append-nil, append_assoc, All, length, arith,
}
use e_callisto_ng.Callisto.Protocol.{data_start, data_end, end_marker}
use e_callisto_ng.Callisto.Parser.{
  fresh, Item, parsed_sweep, StreamParser, Fed, new, quiet, take_sample, consume_hex, consume,
  after, feed,
}
use e_callisto_ng.Callisto.Parser.Digits.{hex4, ready, encode, InDepth, normalized, feed-encode}
use e_callisto_ng.Callisto.Parser.Stream.{feed-append, feed-cons, after-quiet, after-yields, ahead}

abbrev pub encode_all : List (List ℕ) → List ℕ
encode_all [] = []
encode_all (s ∷ ss) = encode s ++ encode_all ss

-- One sample for each channel, each within the bit depth.
abbrev pub IsSent : ℕ → Bool → List ℕ → Type 0
IsSent n ten samples = (length samples ≡ n) × All (InDepth ten) samples

abbrev pub delivered : Bool → List (List ℕ) → List Item
delivered ten = map (λ samples. parsed_sweep (normalized ten samples))

-- What the receiver sends between `start` and the end of the data: the sweeps, the end marker.
abbrev pub transmission : List (List ℕ) → List ℕ
transmission sweeps = data_start ∷ (encode_all sweeps ++ (hex4 end_marker ++ data_end ∷ []))

abbrev outcome : List Item → StreamParser → Fed
outcome items p = record { items = items; raised = none; parser = p }

ahead-outcome :
    (item : Item) (items : List Item) (p : StreamParser) (g : StreamParser → Fed)
    → ahead item (after (outcome items p) g) ≡ after (outcome (item ∷ items) p) g
unfolding after
ahead-outcome item items p g = refl

outcome_then :
    (items : List Item) (p q : StreamParser) (g : StreamParser → Fed)
    → g p ≡ quiet q
    → after (outcome items p) g ≡ outcome items q
unfolding after
outcome_then items p q g h = rw h (rw append-nil)

-- At the start of a sweep.
abbrev between_sweeps : StreamParser → StreamParser
between_sweeps p = ready (record p { sweep = [] }) []

feed-encode_all :
    (p : StreamParser) (sweeps : List (List ℕ)) (rest : List ℕ)
    → 0 < p.nchannels
    → All (IsSent p.nchannels p.data10bit) sweeps
    → feed (between_sweeps p) (encode_all sweeps ++ rest)
      ≡ after (outcome (delivered p.data10bit sweeps) (between_sweeps p)) (λ q. feed q rest)
feed-encode_all p [] rest pos h = sym (after-quiet _ _)
feed-encode_all p ([] ∷ ss) rest pos h = absurd (omega arith)
feed-encode_all p ((v ∷ vs) ∷ ss) rest pos h =
    ap (feed (between_sweeps p)) (append_assoc (encode (v ∷ vs)) (encode_all ss) rest)
    ∙ feed-append (between_sweeps p) (encode (v ∷ vs)) (encode_all ss ++ rest)
    ∙ rw (feed-encode (record p { sweep = [] }) v vs (omega arith) h.0.1)
        (after-yields _ _ _ ∙ rw (feed-encode_all p ss rest pos h.1) (ahead-outcome _ _ _ _))

start_data :
    (p : StreamParser)
    → p.in_data ≡ false
    → p.in_message ≡ false
    → consume p data_start ≡ quiet (between_sweeps p)
unfolding consume
start_data p off idle = ground arith

-- Between two sweeps the end marker is dropped, and the end of the data leaves data mode.
end_data :
    (p : StreamParser)
    → feed (between_sweeps p) (hex4 end_marker ++ data_end ∷ [])
      ≡ quiet (record (between_sweeps p) { in_data = false })
unfolding feed after consume consume_hex take_sample
end_data p = refl

new-fresh :
    (n : ℕ) (ten : Bool) {p : StreamParser} → new n ten ≡ some p → (0 < n) × (fresh n ten ≡ p)
unfolding new
new-fresh n ten h = ground arith

fresh_roundtrip :
    (n : ℕ) (ten : Bool) (sweeps : List (List ℕ))
    → 0 < n
    → All (IsSent n ten) sweeps
    → feed (fresh n ten) (transmission sweeps) ≡ outcome (delivered ten sweeps) (fresh n ten)
fresh_roundtrip n ten sweeps pos sent =
    feed-cons p data_start (encode_all sweeps ++ tail)
    ∙ rw (start_data p refl refl) (
        after-quiet _ _
        ∙ rw (feed-encode_all p sweeps tail pos sent) (outcome_then _ _ _ _ (end_data p)))
  where
    p : StreamParser
    p = fresh n ten

    tail : List ℕ
    tail = hex4 end_marker ++ data_end ∷ []

-- For a new parser: what the receiver sends, any number of sweeps of samples within the bit depth,
-- comes back as those sweeps in order, normalized to 8 bits, and the parser is as new again.
pub transmission_roundtrip :
    (n : ℕ) (ten : Bool) (p : StreamParser) (sweeps : List (List ℕ))
    → new n ten ≡ some p
    → All (IsSent n ten) sweeps
    → feed p (transmission sweeps)
      ≡ record { items = delivered ten sweeps; raised = none; parser = p }
transmission_roundtrip n ten p sweeps made sent =
    let (pos, e) = new-fresh n ten made in
    subst (λ q. feed q (transmission sweeps) ≡ outcome (delivered ten sweeps) q) e
      (fresh_roundtrip n ten sweeps pos sent)

-- ===== src/Callisto/Parser/Messages.antt =====
-- Text messages between the bytes of the data.
use e_callisto_ng.Prelude.{
  ℕ, ◌≡◌, ◌≢◌, refl, ap, ◌∙◌, true, false, List, [], ◌∷◌, ◌++◌, append-nil, append_assoc, All,
  arith,
}
use e_callisto_ng.Callisto.Protocol.{message_start, message_end}
use e_callisto_ng.Callisto.Parser.{
  parsed_message, StreamParser, Fed, quiet, yields, decode_ascii, consume, after, feed,
}
use e_callisto_ng.Callisto.Parser.Invariant.{IsWell, feed-FedWell}
use e_callisto_ng.Callisto.Parser.Stream.{feed-append, feed-cons, after-quiet, after-yields, ahead}

-- A text message, framed.
abbrev pub framed : List ℕ → List ℕ
framed text = message_start ∷ text ++ message_end ∷ []

abbrev pub HasNoEnd : List ℕ → Type 0
HasNoEnd = All (λ b. b ≢ message_end)

consume_text :
    (p : StreamParser) (b : ℕ)
    → p.in_message ≡ true
    → b ≢ message_end
    → consume p b ≡ quiet (record p { message = p.message ++ b ∷ [] })
unfolding consume
consume_text p b on h = ground arith

consume_end :
    (p : StreamParser)
    → p.in_message ≡ true
    → consume p message_end
      ≡ yields
          (parsed_message (decode_ascii p.message))
          (record p { in_message = false; message = [] })
unfolding consume
consume_end p on = ground arith

feed-text :
    (p : StreamParser) (text rest : List ℕ)
    → p.in_message ≡ true
    → HasNoEnd text
    → feed p ((text ++ message_end ∷ []) ++ rest)
      ≡ ahead
          (parsed_message (decode_ascii (p.message ++ text)))
          (feed (record p { in_message = false; message = [] }) rest)
feed-text p [] rest on h =
    feed-cons p message_end rest ∙ rw (consume_end p on) (after-yields _ _ _ ∙ rw append-nil)
feed-text p (b ∷ text) rest on h =
    feed-cons p b ((text ++ message_end ∷ []) ++ rest)
    ∙ rw (consume_text p b on h.0) (
        after-quiet _ _
        ∙ feed-text (record p { message = p.message ++ b ∷ [] }) text rest on h.1
        ∙ rw append_assoc)

feed-framed :
    (p : StreamParser) (text rest : List ℕ)
    → p.in_message ≡ false
    → p.message ≡ []
    → HasNoEnd text
    → feed p (framed text ++ rest) ≡ ahead (parsed_message (decode_ascii text)) (feed p rest)
feed-framed p text rest idle empty h =
    feed-cons p message_start ((text ++ message_end ∷ []) ++ rest)
    ∙ rw (opens p idle) (
        after-quiet _ _
        ∙ feed-text (record p { in_message = true; message = [] }) text rest refl h
        ∙ ap (λ q. ahead (parsed_message (decode_ascii text)) (feed q rest)) (ground arith))
  where
    opens :
        (q : StreamParser)
        → q.in_message ≡ false
        → consume q message_start ≡ quiet (record q { in_message = true; message = [] })
    opens q off = unfold consume in ground arith

after_cong :
    (fed : Fed) (f g : StreamParser → Fed) → f fed.parser ≡ g fed.parser → after fed f ≡ after fed g
unfolding after
after_cong fed f g h = ground arith

-- A message in the middle of the stream is yielded where it stands, and the bytes around it are read
-- as if it were not there.
message_interleaves :
    (n : ℕ) (p : StreamParser) (xs text ys : List ℕ)
    → IsWell n p
    → (feed p xs).parser.in_message ≡ false
    → HasNoEnd text
    → feed p (xs ++ (framed text ++ ys))
      ≡ after (feed p xs) (λ q. ahead (parsed_message (decode_ascii text)) (feed q ys))
message_interleaves n p xs text ys w idle h =
    feed-append p xs (framed text ++ ys)
    ∙ after_cong (feed p xs) _ _ (
        feed-framed (feed p xs).parser text ys idle
          ((feed-FedWell n p xs w).parser.idle_message idle) h)

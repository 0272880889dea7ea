-- ===== src/Callisto/Parser/Digits.antt =====
-- Samples as four hexadecimal digits each: what the parser makes of one, and of one whole sweep.
use e_callisto_ng.Prelude.{
  ℕ, suc, ◌+◌, ◌*◌, ◌/◌, ◌%◌, ◌^◌, ◌<◌, ◌≡◌, ap, ◌∙◌, Bool, true, false, List, [], ◌∷◌, ◌++◌, map,
  append_assoc, All, length, length-append, arith, ltb, if◌then◌else◌,
}
use e_callisto_ng.Callisto.Protocol.{to_8bit}
use e_callisto_ng.Callisto.Parser.{
  parsed_sweep, StreamParser, quiet, yields, is_hex, hex_digit, hex_from, bit_depth, push,
  take_sample, consume_hex, consume, after, feed,
}
use e_callisto_ng.Callisto.Parser.Stream.{feed-append, feed-nil, after-quiet, after-yields}

-- One hexadecimal digit, and a sample as four of them, as the receiver prints them.
abbrev pub hex_char : ℕ → ℕ
hex_char d = if ltb d 10 then 48 + d else 55 + d

abbrev pub hex4 : ℕ → List ℕ
hex4 v =
    hex_char (v / 4096) ∷ hex_char (v / 256 % 16) ∷ hex_char (v / 16 % 16) ∷ hex_char (v % 16) ∷ []

hex_digit-hex_char : (d : ℕ) → d < 16 → hex_digit (hex_char d) ≡ d
hex_digit-hex_char d h = ground arith

is_hex-hex_char : (d : ℕ) → d < 16 → is_hex (hex_char d) ≡ true
is_hex-hex_char d h = ground arith

hex_from-digits :
    (a b c d : ℕ)
    → a < 16
    → b < 16
    → c < 16
    → d < 16
    → hex_from 0 (hex_char a ∷ hex_char b ∷ hex_char c ∷ hex_char d ∷ [])
      ≡ ((a * 16 + b) * 16 + c) * 16 + d
hex_from-digits a b c d ha hb hc hd = omega (
  arith,
  hex_digit-hex_char a ha,
  hex_digit-hex_char b hb,
  hex_digit-hex_char c hc,
  hex_digit-hex_char d hd,
)

hex_from-hex4 : (v : ℕ) → v < 65536 → hex_from 0 (hex4 v) ≡ v
hex_from-hex4 v h =
    hex_from-digits (v / 4096) (v / 256 % 16) (v / 16 % 16) (v % 16) (omega arith) (omega arith)
      (omega arith) (omega arith)
    ∙ omega arith

-- In the data, outside of a message, with the digits `hs` of a sample begun.
abbrev pub ready : StreamParser → List ℕ → StreamParser
ready p hs = record p { in_data = true; in_message = false; hexbuf = hs }

consume-is_hex :
    (p : StreamParser) (hs : List ℕ) (c : ℕ)
    → is_hex c ≡ true
    → consume (ready p hs) c ≡ consume_hex (ready p hs) c
unfolding consume
consume-is_hex p hs c h = ground arith

take_sample-after :
    (p : StreamParser) (hs : List ℕ) (v : ℕ)
    → after (take_sample (ready p hs) v) quiet ≡ take_sample (ready p []) v
unfolding take_sample push after
take_sample-after p hs v = ground arith

feed-digits :
    (p : StreamParser) (a b c d : ℕ)
    → is_hex a ≡ true
    → is_hex b ≡ true
    → is_hex c ≡ true
    → is_hex d ≡ true
    → feed (ready p []) (a ∷ b ∷ c ∷ d ∷ [])
      ≡ take_sample (ready p []) (hex_from 0 (a ∷ b ∷ c ∷ d ∷ []))
unfolding feed after consume_hex
feed-digits p a b c d ha hb hc hd = rw (consume-is_hex p [] a ha) (
    rw (consume-is_hex p (a ∷ []) b hb) (
      rw (consume-is_hex p (a ∷ b ∷ []) c hc) (
        rw (consume-is_hex p (a ∷ b ∷ c ∷ []) d hd)
          (take_sample-after p (a ∷ b ∷ c ∷ []) (hex_from 0 (a ∷ b ∷ c ∷ d ∷ []))))))

pub feed-hex4 :
    (p : StreamParser) (v : ℕ) → v < 65536 → feed (ready p []) (hex4 v) ≡ take_sample (ready p []) v
feed-hex4 p v h =
    feed-digits p _ _ _ _ (is_hex-hex_char (v / 4096) (omega arith))
      (is_hex-hex_char (v / 256 % 16) (omega arith)) (is_hex-hex_char (v / 16 % 16) (omega arith))
      (is_hex-hex_char (v % 16) (omega arith))
    ∙ ap (take_sample (ready p [])) (hex_from-hex4 v h)

-- The samples of one sweep, as the receiver sends them.
abbrev pub encode : List ℕ → List ℕ
encode [] = []
encode (v ∷ vs) = hex4 v ++ encode vs

abbrev pub InDepth : Bool → ℕ → Type 0
InDepth ten v = v < 2 ^ bit_depth ten

take_sample-InDepth :
    (p : StreamParser) (v : ℕ)
    → InDepth p.data10bit v
    → take_sample p v ≡ push p (to_8bit v p.data10bit)
unfolding take_sample
take_sample-InDepth p v h = ground arith

push_last :
    (p : StreamParser) (s : ℕ)
    → length p.sweep + 1 ≡ p.nchannels
    → push p s ≡ yields (parsed_sweep (p.sweep ++ s ∷ [])) (record p { hexbuf = []; sweep = [] })
unfolding push
push_last p s h = ground (arith, length-append p.sweep (s ∷ []))

push_room :
    (p : StreamParser) (s : ℕ)
    → length p.sweep + 1 < p.nchannels
    → push p s ≡ quiet (record p { hexbuf = []; sweep = p.sweep ++ s ∷ [] })
unfolding push
push_room p s h = ground (arith, length-append p.sweep (s ∷ []))

-- A sample that fits the bit depth is pushed, and the parser goes on with the rest.
feed-sample :
    (p : StreamParser) (v : ℕ) (rest : List ℕ)
    → InDepth p.data10bit v
    → feed (ready p []) (hex4 v ++ rest)
      ≡ after (push (ready p []) (to_8bit v p.data10bit)) (λ q. feed q rest)
feed-sample p v rest h =
    feed-append (ready p []) (hex4 v) rest
    ∙ ap (λ fed. after fed (λ q. feed q rest))
        (feed-hex4 p v (InDepth-lt p.data10bit v h) ∙ take_sample-InDepth (ready p []) v h)
  where
    InDepth-lt : (ten : Bool) (w : ℕ) → InDepth ten w → w < 65536
    InDepth-lt true w k = omega arith
    InDepth-lt false w k = omega arith

abbrev pub normalized : Bool → List ℕ → List ℕ
normalized ten = map (λ v. to_8bit v ten)

pub feed-encode :
    (p : StreamParser) (v : ℕ) (vs : List ℕ)
    → length p.sweep + suc (length vs) ≡ p.nchannels
    → All (InDepth p.data10bit) (v ∷ vs)
    → feed (ready p []) (encode (v ∷ vs))
      ≡ yields
          (parsed_sweep (p.sweep ++ normalized p.data10bit (v ∷ vs)))
          (record (ready p []) { sweep = [] })
feed-encode p v [] n h =
    feed-sample p v [] h.0
    ∙ rw (push_last (ready p []) (to_8bit v p.data10bit) (omega arith))
        (after-yields _ _ _ ∙ rw feed-nil)
feed-encode p v (w ∷ ws) n h =
    feed-sample p v (encode (w ∷ ws)) h.0
    ∙ rw (push_room (ready p []) (to_8bit v p.data10bit) (omega arith)) (
        after-quiet _ _
        ∙ feed-encode (record p { sweep = p.sweep ++ to_8bit v p.data10bit ∷ [] }) w ws
            (omega (arith, length-append p.sweep (to_8bit v p.data10bit ∷ []))) h.1
        ∙ rw append_assoc)

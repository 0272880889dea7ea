-- ===== src/Callisto/Parser/Invariant.antt =====
-- What holds of every parser that `new` makes and `feed` moves, and of every sweep it yields.
use e_callisto_ng.Prelude.{
  ℕ, ◌<◌, ◌≡◌, Bool, true, false, some, List, [], ◌∷◌, ◌++◌, All, All-append, length, length-append,
  arith,
}
use e_callisto_ng.Callisto.Protocol.{to_8bit}
use e_callisto_ng.Callisto.Parser.{
  Item, parsed_message, parsed_sweep, StreamParser, Fed, new, high_bits, bit_depth, hex_from, push,
  take_sample, consume_hex, consume, after, feed,
}

abbrev pub IsByte : ℕ → Type 0
IsByte v = v < 256

-- The buffers are shorter than what would empty them, and hold what they are meant to hold.
pub record IsWell (n : ℕ) (p : StreamParser) : Type 0 where
  pub channels : p.nchannels ≡ n
  pub hex_room : length p.hexbuf < 4
  pub sweep_room : length p.sweep < n
  pub bytes : All IsByte p.sweep
  pub idle_message : p.in_message ≡ false → p.message ≡ []

abbrev pub IsItem : ℕ → Item → Type 0
IsItem n (parsed_message text) = Unit
IsItem n (parsed_sweep values) = (length values ≡ n) × All IsByte values

pub record FedWell (n : ℕ) (fed : Fed) : Type 0 where
  pub parser : IsWell n fed.parser
  pub items : All (IsItem n) fed.items

new-IsWell : (n : ℕ) (ten : Bool) (p : StreamParser) → new n ten ≡ some p → IsWell n p
unfolding new
new-IsWell n ten p h = ground arith

to_8bit-IsByte :
    (value : ℕ) (ten : Bool) → high_bits value (bit_depth ten) ≡ 0 → IsByte (to_8bit value ten)
unfolding to_8bit
to_8bit-IsByte value true h = omega arith
to_8bit-IsByte value false h = omega arith

push-FedWell : (n : ℕ) (p : StreamParser) (v : ℕ) → IsByte v → IsWell n p → FedWell n (push p v)
unfolding push
push-FedWell n p v b w =
    ground
      (arith, length-append p.sweep (v ∷ []), All-append IsByte p.sweep (v ∷ []) w.bytes (b, tt))

take_sample-FedWell : (n : ℕ) (p : StreamParser) (v : ℕ) → IsWell n p → FedWell n (take_sample p v)
unfolding take_sample
take_sample-FedWell n p v w =
    ground (arith, to_8bit-IsByte v p.data10bit, push-FedWell n p (to_8bit v p.data10bit))

consume_hex-FedWell : (n : ℕ) (p : StreamParser) (c : ℕ) → IsWell n p → FedWell n (consume_hex p c)
unfolding consume_hex
consume_hex-FedWell n p c w =
    ground (arith, take_sample-FedWell n p (hex_from 0 (p.hexbuf ++ c ∷ [])) w)

consume-FedWell : (n : ℕ) (p : StreamParser) (byte : ℕ) → IsWell n p → FedWell n (consume p byte)
unfolding consume
consume-FedWell n p byte w = ground (arith, consume_hex-FedWell n p byte w)

after-FedWell :
    (n : ℕ) (fed : Fed) (g : StreamParser → Fed)
    → FedWell n fed
    → ((q : StreamParser) → IsWell n q → FedWell n (g q))
    → FedWell n (after fed g)
unfolding after
after-FedWell n fed g w h =
    ground (arith, h fed.parser, All-append (IsItem n) fed.items (g fed.parser).items w.items)

-- From a well-formed parser, whatever the bytes: every sweep that is yielded has exactly one 8-bit
-- value for each channel, and the parser left behind is well formed, also after a corrupt sample.
pub feed-FedWell :
    (n : ℕ) (p : StreamParser) (bytes : List ℕ) → IsWell n p → FedWell n (feed p bytes)
unfolding feed
feed-FedWell n p [] w = record { parser = w; items = tt }
feed-FedWell n p (b ∷ bs) w =
    after-FedWell n (consume p b) (λ q. feed q bs) (consume-FedWell n p b w)
      (λ q u. feed-FedWell n q bs u)

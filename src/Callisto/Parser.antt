-- ===== src/Callisto/Parser.antt =====
-- parser.py, the incremental decoder of the byte stream. A generator that may raise is a `Fed`: what
-- it yielded, the corrupt sample that it raised on, if any, and the parser it leaves behind.
pub mod Stream
pub mod Digits
pub mod Invariant
pub mod Roundtrip
pub mod Messages
mod Tests
use e_callisto_ng.Prelude.{
  ℕ, ◌+◌, ◌-◌, ◌*◌, ◌/◌, ◌^◌, Bool, true, false, not, ◌&&◌, ◌||◌, Option, none, some, List, [], ◌∷◌,
  ◌++◌, map, ltb, leb, ◌==◌, if◌then◌else◌, length,
}
use e_callisto_ng.Callisto.Protocol.{
  message_start, message_end, data_start, data_end, end_marker, to_8bit,
}

pub data Item : Type 0 where
  parsed_message : List ℕ → Item
  parsed_sweep : List ℕ → Item

pub record StreamParser : Type 0 where
  pub nchannels : ℕ
  pub data10bit : Bool
  pub in_data : Bool
  pub in_message : Bool
  pub message : List ℕ
  pub hexbuf : List ℕ
  pub sweep : List ℕ

pub record Fed : Type 0 where
  pub items : List Item
  pub raised : Option ℕ
  pub parser : StreamParser

-- What `__init__` sets up, unless it raises a ValueError: `none`.
abbrev pub fresh : ℕ → Bool → StreamParser
fresh n ten = record {
  nchannels = n;
  data10bit = ten;
  in_data = false;
  in_message = false;
  message = [];
  hexbuf = [];
  sweep = [];
}

unfoldable pub new : ℕ → Bool → Option StreamParser
new nchannels data10bit = if ltb nchannels 1 then none else some (fresh nchannels data10bit)

abbrev pub quiet : StreamParser → Fed
quiet p = record { items = []; raised = none; parser = p }

abbrev pub yields : Item → StreamParser → Fed
yields item p = record { items = item ∷ []; raised = none; parser = p }

-- `byte in _HEX_DIGITS`
abbrev pub is_hex : ℕ → Bool
is_hex c = leb b'0' c && leb c b'9' || leb b'A' c && leb c b'F'

abbrev pub hex_digit : ℕ → ℕ
hex_digit c = if leb c b'9' then c - b'0' else c - b'A' + 10

-- `int(text, 16)` on hexadecimal digits
abbrev pub hex_from : ℕ → List ℕ → ℕ
hex_from acc [] = acc
hex_from acc (c ∷ cs) = hex_from (acc * 16 + hex_digit c) cs

-- `decode("ascii", "replace")`
abbrev pub decode_ascii : List ℕ → List ℕ
decode_ascii = map (λ b. if ltb b 128 then b else 0xfffd)

abbrev pub bit_depth : Bool → ℕ
bit_depth data10bit = if data10bit then 10 else 8

-- `value & ~mask` for the mask of the low `depth` bits
abbrev pub high_bits : ℕ → ℕ → ℕ
high_bits value depth = value / 2 ^ depth * 2 ^ depth

-- The end of `_consume_hex`: one sample joins the sweep.
unfoldable pub push : StreamParser → ℕ → Fed
push p sample =
    let filled = p.sweep ++ sample ∷ [] in
    if length filled == p.nchannels
    then yields (parsed_sweep filled) (record p { hexbuf = []; sweep = [] })
    else quiet (record p { hexbuf = []; sweep = filled })

-- `_consume_hex`, from the complete four digits on
unfoldable pub take_sample : StreamParser → ℕ → Fed
take_sample p value =
    if value == end_marker
    then quiet (record p { hexbuf = [] })
    else if high_bits value (bit_depth p.data10bit) == 0
    then push p (to_8bit value p.data10bit)
    else record { items = []; raised = some value; parser = record p { hexbuf = [] } }

unfoldable pub consume_hex : StreamParser → ℕ → Fed
consume_hex p byte =
    let digits = p.hexbuf ++ byte ∷ [] in
    if ltb (length digits) 4
    then quiet (record p { hexbuf = digits })
    else take_sample p (hex_from 0 digits)

-- `_consume`
unfoldable pub consume : StreamParser → ℕ → Fed
consume p byte =
    if p.in_message
    then (if byte == message_end
        then yields (parsed_message (decode_ascii p.message))
            (record p { in_message = false; message = [] })
        else quiet (record p { message = p.message ++ byte ∷ [] }))
    else if byte == message_start
    then quiet (record p { in_message = true; message = [] })
    else if not p.in_data && byte == data_start
    then quiet (record p { in_data = true; hexbuf = []; sweep = [] })
    else if p.in_data && byte == data_end
    then quiet (record p { in_data = false })
    else if p.in_data && is_hex byte
    then consume_hex p byte
    else quiet p

-- A generator goes on from the parser that it left, unless it raised.
unfoldable pub after : Fed → (StreamParser → Fed) → Fed
after fed next = elim fed.raised [
  | some v ↦ fed
  | none ↦
      let more = next fed.parser in
      record { items = fed.items ++ more.items; raised = more.raised; parser = more.parser }
]

unfoldable pub feed : StreamParser → List ℕ → Fed
unfolding consume after
feed p [] = quiet p
feed p (byte ∷ bytes) = after (consume p byte) (λ q. feed q bytes)

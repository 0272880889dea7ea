-- ===== src/Callisto/Parser/Tests.antt =====
-- The parser at concrete input.
use e_callisto_ng.Prelude.{ℕ, ◌≡◌, refl, true, false, none, some, List, [], ◌∷◌, arith}
use e_callisto_ng.Callisto.Protocol.{to_8bit}
use e_callisto_ng.Callisto.Parser.{
  StreamParser, parsed_sweep, fresh, new, push, take_sample, consume_hex, consume, after, feed,
}
use e_callisto_ng.Callisto.Parser.Invariant.{FedWell, IsWell, feed-FedWell}
use e_callisto_ng.Callisto.Parser.Roundtrip.{transmission, delivered, transmission_roundtrip}

abbrev two_channels : StreamParser
two_channels = fresh 2 true

two_channels-IsWell : IsWell 2 two_channels
two_channels-IsWell = record {
  channels = refl;
  hex_room = omega arith;
  sweep_room = omega arith;
  bytes = tt;
  idle_message = λ h. refl;
}

-- "2", then the samples 0x0010 and 0x03FF.
abbrev one_sweep : List ℕ
one_sweep = 50 ∷ 48 ∷ 48 ∷ 49 ∷ 48 ∷ 48 ∷ 51 ∷ 70 ∷ 70 ∷ []

one_sweep_parsed : (feed two_channels one_sweep).items ≡ parsed_sweep (4 ∷ 255 ∷ []) ∷ []
unfolding feed after consume consume_hex take_sample push to_8bit
one_sweep_parsed = refl

-- The sample 0x0400 does not fit ten bits.
corrupt_raises : (feed two_channels (50 ∷ 48 ∷ 52 ∷ 48 ∷ 48 ∷ [])).raised ≡ some 0x400
unfolding feed after consume consume_hex take_sample push to_8bit
corrupt_raises = refl

feed-FedWell_example : FedWell 2 (feed two_channels one_sweep)
feed-FedWell_example = feed-FedWell 2 two_channels one_sweep two_channels-IsWell

abbrev sent : List (List ℕ)
sent = (16 ∷ 1023 ∷ []) ∷ (0 ∷ 35 ∷ []) ∷ []

new_two : new 2 true ≡ some two_channels
unfolding new
new_two = refl

transmission_roundtrip_example :
    feed two_channels (transmission sent)
    ≡ record { items = delivered true sent; raised = none; parser = two_channels }
transmission_roundtrip_example =
    transmission_roundtrip 2 true two_channels sent new_two (omega arith)

outside : (feed two_channels (50 ∷ 48 ∷ [])).parser.in_message ≡ false
unfolding feed after consume consume_hex
outside = refl

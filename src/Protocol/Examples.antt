-- ===== src/Protocol/Examples.antt =====
-- crates/mai-protocol/src/codec.rs: the theorems at concrete inputs.
use multi_ai.Base.{
  zero, ◌≡◌, refl, false, [], ◌∷◌, map, Text, text, Result, ok, err, arith, nat_beq, any,
  if◌then◌else◌,
}
use multi_ai.Protocol.{ProbeMsg, heartbeat}
use multi_ai.Protocol.Codec.{
  Json, encode_line, decode_line, encode_all, lines_from, decode_stream, is_line_end,
}

-- A printer and a parser that know one message.
abbrev print : ProbeMsg → Result Text Text
print (heartbeat zero) = ok (text "0")
print _ = err (text "unknown")

abbrev parse : Text → Result ProbeMsg Text
parse [] = err (text "empty")
parse (c ∷ s) = if nat_beq c b'0' then ok (heartbeat 0) else err (text "no JSON")

print-one_line : (m : ProbeMsg) (s : Text) → print m ≡ ok s → any is_line_end s ≡ false
unfolding is_line_end
print-one_line m s e = ground arith

parse-print : (m : ProbeMsg) (s : Text) → print m ≡ ok s → parse s ≡ ok m
parse-print m s e = ground arith

abbrev small : Json ProbeMsg Text
small = record {
  to_string = print;
  from_str = parse;
  one_line = print-one_line;
  from_str-to_string = parse-print;
}

decode_stream_example :
    map (decode_line parse) (lines_from [] (48 ∷ 10 ∷ 48 ∷ 10 ∷ []))
    ≡ map ok (heartbeat 0 ∷ heartbeat 0 ∷ [])
unfolding encode_line encode_all
decode_stream_example =
    decode_stream small (heartbeat 0 ∷ heartbeat 0 ∷ []) (48 ∷ 10 ∷ 48 ∷ 10 ∷ []) refl

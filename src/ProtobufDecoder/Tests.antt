-- ===== src/ProtobufDecoder/Tests.antt =====
-- The stream decoder on concrete bytes. Here a message is its bytes.
use flare_core.Base.{
  ℕ, ◌+◌, ◌-◌, ◌^◌, ◌≡◌, ◌<◌, ◌≤◌, refl, [], ◌∷◌, ◌++◌, List, length, arith, Result, ok,
}
use flare_core.ProtobufDecoder.{message, panicked, decoded, decode_next, read_varint, read_loop}
use flare_core.ProtobufDecoder.Varint.{groups, varint}
use flare_core.ProtobufDecoder.Stream.{
  frame, decode_next-frame, decode_next-shrinks, decode_next-overflow,
}

abbrev as_is : List ℕ → Result (Unit {0}) (List ℕ)
as_is bytes = ok bytes

abbrev hello : List ℕ
hello = 104 ∷ 105 ∷ []

decode_next-frame_example :
    decode_next as_is (frame hello ++ 7 ∷ []) ≡ (7 ∷ [], decoded as_is (as_is hello))
decode_next-frame_example = decode_next-frame as_is hello (7 ∷ []) (omega arith)

abbrev wire : List ℕ
wire = 2 ∷ 104 ∷ 105 ∷ 7 ∷ []

hello-decodes : (decode_next as_is wire).1 ≡ message hello
unfolding decode_next read_varint read_loop
hello-decodes = refl

decode_next-shrinks_example : length (decode_next as_is wire).0 < length wire
decode_next-shrinks_example = decode_next-shrinks as_is wire hello hello-decodes

huge-wraps : 2 ^ 64 ≤ length (varint (2 ^ 64 - 1)) + (2 ^ 64 - 1)
unfolding groups
huge-wraps = omega arith

decode_next-overflow_example : (decode_next as_is (varint (2 ^ 64 - 1) ++ [])).1 ≡ panicked
decode_next-overflow_example = decode_next-overflow as_is (2 ^ 64 - 1) [] (omega arith) huge-wraps

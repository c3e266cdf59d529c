-- ===== src/ProtobufDecoder.antt =====
-- src/common/protobuf_decoder.rs: messages behind a varint length, out of a buffer that grows. A byte is
-- a number below 256. `T::decode` of prost is an argument. Additions of `usize`, which has 64 bits, wrap
-- around, as in a release build.
pub mod Varint
pub mod Stream
mod Tests
use flare_core.Base.{
  ℕ, zero, suc, ◌+◌, ◌*◌, ◌%◌, ◌^◌, Bool, true, false, not, List, [], ◌∷◌, ◌++◌, Option, none, some,
  Text, if◌then◌else◌, ltb, nat_beq, length, take, drop, is_empty, Result, ok, err,
}
use flare_core.Base.Chars.{codes}
use flare_core.Kick.{from_utf8}

-- `Ok(Some((length, bytes_consumed)))`, `Ok(None)`, `Err(_)`
pub data VarintRead : Type 0 where
  read : (value consumed : ℕ) → VarintRead
  too_short : VarintRead
  too_long : VarintRead

-- `result |= value << shift` on `u64`. The bits of `result` are all below `shift`, so that the
-- disjunction is a sum.
abbrev pub add_group : ℕ → ℕ → ℕ → ℕ
add_group result byte shift = result + ((byte % 128) * 2 ^ shift) % 2 ^ 64

-- The loop, with the rounds it has left and what the cursor has not reached.
unfoldable pub read_loop : ℕ → List ℕ → ℕ → ℕ → ℕ → VarintRead
read_loop zero bytes result shift position = too_long
read_loop (suc rounds) [] result shift position = too_short
read_loop (suc rounds) (byte ∷ bytes) result shift position =
    let result' = add_group result byte shift in
    let rest = read_loop rounds bytes result' (shift + 7) (position + 1) in
    if ltb byte 128 then read result' (position + 1) else rest

unfoldable pub read_varint : List ℕ → VarintRead
unfolding read_loop
read_varint buffer = read_loop 10 buffer 0 0 0

-- What a call gives: a message, nothing yet, an error, or a panic.
pub data Decoded {ℓ κ} (E : Type ℓ) (T : Type κ) : Type (ℓ ⊔ κ) where
  message : T → Decoded E T
  incomplete : Decoded E T
  varint_too_long : Decoded E T
  decode_failed : E → Decoded E T
  panicked : Decoded E T

module _ {ℓ κ} {E : Type ℓ} {T : Type κ} (decode : List ℕ → Result E T) where
  abbrev pub decoded : Result E T → Decoded E T
  decoded (ok t) = message t
  decoded (err e) = decode_failed e

  -- `split_to(end)` and then `[offset..]`, which panics if the split is the shorter.
  abbrev pub cut : List ℕ → ℕ → ℕ → List ℕ × Decoded E T
  cut buffer offset end = (
    drop end buffer,
    if ltb end offset then panicked else decoded (decode (drop offset (take end buffer))),
  )

  abbrev pub decode_at : List ℕ → VarintRead → List ℕ × Decoded E T
  decode_at buffer too_short = (buffer, incomplete)
  decode_at buffer too_long = (buffer, varint_too_long)
  decode_at buffer (read message_len offset) =
      let end = (offset + message_len) % 2 ^ 64 in
      if ltb (length buffer) end then (buffer, incomplete) else cut buffer offset end

  -- The buffer that is left, and the result.
  unfoldable pub decode_next : List ℕ → List ℕ × Decoded E T
  unfolding read_varint
  decode_next buffer = decode_at buffer (read_varint buffer)

  unfoldable pub safe_protobuf_decode : List ℕ → Result E T
  safe_protobuf_decode bytes = decode bytes

unfoldable pub add_data : List ℕ → List ℕ → List ℕ
add_data buffer bytes = buffer ++ bytes

unfoldable pub has_remaining : List ℕ → Bool
has_remaining buffer = not (is_empty buffer)

unfoldable pub remaining_len : List ℕ → ℕ
remaining_len buffer = length buffer

unfoldable pub clear : List ℕ → List ℕ
clear buffer = []

abbrev invalid_utf8 : Option Text → Result (Unit {0}) Text
invalid_utf8 none = err tt
invalid_utf8 (some s) = ok s

unfoldable pub safe_string_decode : List ℕ → Result (Unit {0}) Text
unfolding from_utf8
safe_string_decode bytes = invalid_utf8 (from_utf8 bytes)

-- ===== src/ProtobufDecoder/Stream.antt =====
-- Proofs on `decode_next` of src/common/protobuf_decoder.rs: frames out of a buffer.
use flare_core.Base.{
  ℕ, zero, suc, ◌+◌, ◌-◌, ◌%◌, ◌^◌, ◌≤◌, ◌<◌, ◌≡◌, ◌≢◌, refl, ap, subst, true, false, List, [], ◌∷◌,
  ◌++◌, arith, ltb, length, take, drop, length-append, append_assoc, take-length-append,
  drop-length-append, Result, ◌⊎◌, inl, inr, Bool-cases,
}
use flare_core.ProtobufDecoder.{
  VarintRead, read, too_short, too_long, read_loop, add_group, read_varint, message, incomplete,
  panicked, decoded, cut, decode_at, decode_next,
}
use flare_core.ProtobufDecoder.Varint.{varint, read_varint-varint}

-- The bytes of a message on the wire.
abbrev pub frame : List ℕ → List ℕ
frame payload = varint (length payload) ++ payload

read_loop_takes :
    (rounds : ℕ) (bytes : List ℕ) (result shift position v k : ℕ)
    → read_loop rounds bytes result shift position ≡ read v k
    → (position < k) × (k ≤ position + length bytes) × (k ≤ position + rounds)
unfolding read_loop
read_loop_takes zero bytes result shift position v k e = cc
read_loop_takes (suc rounds) [] result shift position v k e = cc
read_loop_takes (suc rounds) (b ∷ bytes) result shift position v k e =
    ground (
      arith,
      read_loop_takes rounds bytes (add_group result b shift) (shift + 7) (position + 1) v k,
    )

-- More bytes change nothing once the length is read, or refused.
read_loop-append :
    (rounds : ℕ) (bytes more : List ℕ) (result shift position v k : ℕ)
    → read_loop rounds bytes result shift position ≡ read v k
    → read_loop rounds (bytes ++ more) result shift position ≡ read v k
unfolding read_loop
read_loop-append zero bytes more result shift position v k e = e
read_loop-append (suc rounds) [] more result shift position v k e = cc
read_loop-append (suc rounds) (b ∷ bytes) more result shift position v k e = ground (
  arith,
  read_loop-append rounds bytes more (add_group result b shift) (shift + 7) (position + 1) v k,
)

read_loop-too_long :
    (rounds : ℕ) (bytes more : List ℕ) (result shift position : ℕ)
    → read_loop rounds bytes result shift position ≡ too_long
    → read_loop rounds (bytes ++ more) result shift position ≡ too_long
unfolding read_loop
read_loop-too_long zero bytes more result shift position e = refl
read_loop-too_long (suc rounds) [] more result shift position e = cc
read_loop-too_long (suc rounds) (b ∷ bytes) more result shift position e = ground (
  arith,
  read_loop-too_long rounds bytes more (add_group result b shift) (shift + 7) (position + 1),
)

read_takes :
    (buffer : List ℕ) (v k : ℕ)
    → read_varint buffer ≡ read v k
    → (0 < k) × (k ≤ length buffer) × (k ≤ 10)
unfolding read_varint
read_takes buffer v k e = ground (arith, read_loop_takes 10 buffer 0 0 0 v k e)

VarintRead-cases :
    (r : VarintRead) → (r ≡ too_short) ⊎ (r ≡ too_long) ⊎ ((v : ℕ) × (k : ℕ) × (r ≡ read v k))
VarintRead-cases too_short = inl refl
VarintRead-cases too_long = inr (inl refl)
VarintRead-cases (read v k) = inr (inr (v, k, refl))

length-drop-lt : (n : ℕ) (xs : List ℕ) → 0 < n → n ≤ length xs → length (drop n xs) < length xs
length-drop-lt zero xs h k = absurd (omega arith)
length-drop-lt (suc n) [] h k = absurd (omega arith)
length-drop-lt (suc zero) (x ∷ xs) h k = omega arith
length-drop-lt (suc (suc n)) (x ∷ xs) h k =
    omega (arith, length-drop-lt (suc n) xs (omega arith) (omega arith))

read_varint-append :
    (front more : List ℕ) (v k : ℕ)
    → read_varint front ≡ read v k
    → read_varint (front ++ more) ≡ read v k
unfolding read_varint
read_varint-append front more v k e = read_loop-append 10 front more 0 0 0 v k e

absurd_too_long :
    (front more : List ℕ) (v k : ℕ)
    → read_varint front ≡ too_long
    → read_varint (front ++ more) ≢ read v k
unfolding read_varint
absurd_too_long front more v k e f = let g = read_loop-too_long 10 front more 0 0 0 e in cc

end_in_range :
    (front payload : List ℕ)
    → length front + length payload < 2 ^ 64
    → (length front + length payload) % 2 ^ 64 ≡ length (front ++ payload)
end_in_range front payload h = omega (arith, length-append front payload)

end_reached :
    (front payload rest : List ℕ)
    → ltb (length (front ++ (payload ++ rest))) (length (front ++ payload)) ≡ false
end_reached front payload rest = ground (
  arith,
  length-append front (payload ++ rest),
  length-append payload rest,
  length-append front payload,
)

end_past_start : (front payload : List ℕ) → ltb (length (front ++ payload)) (length front) ≡ false
end_past_start front payload = ground (arith, length-append front payload)

whole-drop :
    (front payload rest : List ℕ)
    → drop (length (front ++ payload)) (front ++ (payload ++ rest)) ≡ rest
whole-drop front payload rest =
    rw⁻¹ (append_assoc front payload rest) (drop-length-append (front ++ payload) rest)

whole-take :
    (front payload rest : List ℕ)
    → drop (length front) (take (length (front ++ payload)) (front ++ (payload ++ rest))) ≡ payload
whole-take front payload rest =
    rw⁻¹ (append_assoc front payload rest)
      (rw (take-length-append (front ++ payload) rest) (drop-length-append front payload))

end_wraps :
    (k v n : ℕ)
    → k ≤ n
    → k ≤ 10
    → v < 2 ^ 64
    → 2 ^ 64 ≤ k + v
    → (ltb ((k + v) % 2 ^ 64) k ≡ true) × (ltb n ((k + v) % 2 ^ 64) ≡ false)
end_wraps k v n a b c d = ground arith

end_missing :
    (k v n m : ℕ) → k + v ≡ n + m → 0 < m → k + v < 2 ^ 64 → ltb n ((k + v) % 2 ^ 64) ≡ true
end_missing k v n m a b c = ground arith

-- What the whole says of its beginning.
same_read : (v k w j : ℕ) (r : VarintRead) → r ≡ read v k → r ≡ read w j → (v ≡ w) × (k ≡ j)
same_read v k w j r e f = ground arith

module _ {ℓ κ} {E : Type ℓ} {T : Type κ} (decode : List ℕ → Result E T) where
  decode_at-whole :
      (front payload rest : List ℕ)
      → length front + length payload < 2 ^ 64
      → decode_at decode (front ++ (payload ++ rest)) (read (length payload) (length front))
        ≡ (rest, decoded decode (decode payload))
  decode_at-whole front payload rest h =
      let e = end_in_range front payload h in
      rw
        (
          e,
          end_reached front payload rest,
          end_past_start front payload,
          whole-drop front payload rest,
          whole-take front payload rest,
        )
        refl

  -- A frame at the front of the buffer, its payload not within ten bytes of 2^64, is decoded, and
  -- what follows it is left in the buffer.
  pub decode_next-frame :
      (payload rest : List ℕ)
      → length payload < 2 ^ 64 - 10
      → decode_next decode (frame payload ++ rest) ≡ (rest, decoded decode (decode payload))
  unfolding decode_next
  decode_next-frame payload rest h =
      let n = length payload in
      let start = read_varint-varint n payload (omega arith) in
      let taken = read_takes (frame payload) n (length (varint n)) start in
      rw
        (append_assoc (varint n) payload rest, read_varint-varint n (payload ++ rest) (omega arith))
        (decode_at-whole (varint n) payload rest (omega (arith, taken)))

  -- A length of 64 bits whose frame would end at 2^64 or later makes the call panic.
  pub decode_next-overflow :
      (v : ℕ) (rest : List ℕ)
      → v < 2 ^ 64
      → 2 ^ 64 ≤ length (varint v) + v
      → (decode_next decode (varint v ++ rest)).1 ≡ panicked
  unfolding decode_next
  decode_next-overflow v rest h o =
      let start = read_varint-varint v rest h in
      let taken = read_takes (varint v ++ rest) v (length (varint v)) start in
      let (wrapped, reached) =
        end_wraps (length (varint v)) v (length (varint v ++ rest)) taken.1 taken.2 h
          (omega (arith, o)) in
      rw (start, reached, wrapped) refl

  -- Every proper beginning of such a frame yields nothing yet, and the buffer is kept as it is.
  pub decode_next-prefix :
      (payload front more : List ℕ)
      → length payload < 2 ^ 64 - 10
      → frame payload ≡ front ++ more
      → 0 < length more
      → decode_next decode front ≡ (front, incomplete)
  unfolding decode_next
  decode_next-prefix payload front more h e p =
      let n = length payload in
      let whole : read_varint (front ++ more) ≡ read n (length (varint n)) =
        subst (λ x. read_varint x ≡ read n (length (varint n))) e
          (read_varint-varint n payload (omega arith)) in
      elim (VarintRead-cases (read_varint front)) [
        | inl q ↦ rw q refl
        | inr (inl q) ↦ absurd (absurd_too_long front more n _ q whole)
        | inr (inr (v, k, q)) ↦
            let (same_v, same_k) =
              same_read v k n (length (varint n)) _ (read_varint-append front more v k q) whole in
            let missing : ltb (length front) ((k + v) % 2 ^ 64) ≡ true =
              end_missing k v (length front) (length more)
                (omega (
                  arith,
                  same_v,
                  same_k,
                  length-append (varint n) payload,
                  length-append front more,
                  ap length e,
                ))
                p (omega (arith, same_v, (read_takes front v k q).2)) in
            rw (q, missing) refl
      ]

  cut-shrinks :
      (buffer : List ℕ) (offset end : ℕ) (t : T)
      → 0 < offset
      → end ≤ length buffer
      → (cut decode buffer offset end).1 ≡ message t
      → length (drop end buffer) < length buffer
  cut-shrinks buffer offset end t p h e = elim (Bool-cases (ltb end offset)) [
    | inl short ↦
        let panic : (cut decode buffer offset end).1 ≡ panicked = rw short refl in absurd cc
    | inr long ↦ length-drop-lt end buffer (ground arith) h
  ]

  decode_at-shrinks :
      (buffer : List ℕ) (r : VarintRead) (t : T)
      → ((v k : ℕ) → r ≡ read v k → 0 < k)
      → (decode_at decode buffer r).1 ≡ message t
      → length (decode_at decode buffer r).0 < length buffer
  decode_at-shrinks buffer too_short t f e = absurd cc
  decode_at-shrinks buffer too_long t f e = absurd cc
  decode_at-shrinks buffer (read v k) t f e =
      elim (Bool-cases (ltb (length buffer) ((k + v) % 2 ^ 64))) [
        | inl short ↦
            let waits : (decode_at decode buffer (read v k)).1 ≡ incomplete = rw short refl in
            absurd cc
        | inr long ↦
            rw long
              (cut-shrinks buffer k ((k + v) % 2 ^ 64) t (f v k refl) (ground arith) (rw long at e))
      ]

  -- A call that yields a message leaves fewer bytes in the buffer than there were, so that
  -- draining it ends.
  pub decode_next-shrinks :
      (buffer : List ℕ) (t : T)
      → (decode_next decode buffer).1 ≡ message t
      → length (decode_next decode buffer).0 < length buffer
  unfolding decode_next
  decode_next-shrinks buffer t e =
      decode_at-shrinks buffer (read_varint buffer) t (λ v k q. (read_takes buffer v k q).0) e

-- ===== src/Conversation/Laws.antt =====
-- Proofs on src/common/conversation.rs: the generators and the check of an id.
use flare_core.Base.{
  ℕ, zero, suc, ◌/◌, ◌%◌, ltb, ◌+◌, ◌≤◌, ◌≡◌, refl, ap, ◌∙◌, Bool, true, false, not, ◌&&◌, ◌||◌,
  List, [], ◌∷◌, ◌++◌, Option, none, some, arith, Text, text_eq, nat_eq, nat_beq_iff, ◌==◌, leb,
  nat_beq, if◌then◌else◌, length, take, drop, length-take,
}
use flare_core.Base.Chars.{codes, len, len_utf8}
use flare_core.Conversation.{
  ConversationType, single, group, ai, system, customer, temp, channel, broadcast, digit, prefix,
  from_prefix, is_greater, opaque_id, ordered, generate_single_chat_conversation_id,
  generate_group_conversation_id, generate_channel_conversation_id,
  generate_broadcast_conversation_id, generate_ai_conversation_id,
  generate_customer_conversation_id, generate_system_conversation_id, hex_digits, ulid, random_u128,
  generate_temp_conversation_id, invalid_temp_length, Validation, valid, invalid, panicked,
  is_base32, all, check_hashed, check_opaque_id, check_type, validate_conversation_id,
}

is_greater-antisym : (s t : Text) → is_greater s t ≡ true → is_greater t s ≡ false
unfolding is_greater
is_greater-antisym [] t h = ground arith
is_greater-antisym (c ∷ s) [] h = refl
is_greater-antisym (c ∷ s) (d ∷ t) h =
    ground (arith, nat_beq_iff c d, nat_beq_iff d c, is_greater-antisym s t)

is_greater-total : (s t : Text) → is_greater s t ≡ false → is_greater t s ≡ false → s ≡ t
unfolding is_greater
is_greater-total [] [] h k = refl
is_greater-total [] (d ∷ t) h k = ground arith
is_greater-total (c ∷ s) [] h k = ground arith
is_greater-total (c ∷ s) (d ∷ t) h k =
    ground (arith, nat_beq_iff c d, nat_beq_iff d c, is_greater-total s t)

module _ (sha256 : Text → List ℕ) (base32 : List ℕ → Text) where
  ordered_comm : (u v : Text) → ordered sha256 base32 u v ≡ ordered sha256 base32 v u
  ordered_comm u v = ground (arith, is_greater-antisym u v, is_greater-total u v)

  -- Both ends of a chat compute the same conversation id, whatever the hash and the encoding are.
  pub generate_single_chat_comm :
      (u v : Text)
      → generate_single_chat_conversation_id sha256 base32 u v
        ≡ generate_single_chat_conversation_id sha256 base32 v u
  unfolding generate_single_chat_conversation_id
  generate_single_chat_comm u v =
      ap
        (λ (p : Text × Text).
          codes "1A" ++ opaque_id sha256 base32 (codes "DM:v1:" ++ (p.0 ++ (codes ":" ++ p.1))))
        (ordered_comm u v)

from_prefix-digit : (t : ConversationType) → from_prefix (digit t ∷ []) ≡ some t
unfolding from_prefix
from_prefix-digit single = refl
from_prefix-digit group = refl
from_prefix-digit ai = refl
from_prefix-digit system = refl
from_prefix-digit customer = refl
from_prefix-digit temp = refl
from_prefix-digit channel = refl
from_prefix-digit broadcast = refl

-- Reading a type's prefix gives the type back.
pub from_prefix-prefix : (t : ConversationType) → from_prefix (prefix t) ≡ some t
unfolding prefix
from_prefix-prefix t = from_prefix-digit t

digit-narrow : (t : ConversationType) → len_utf8 (digit t) ≡ 1
unfolding len_utf8
digit-narrow single = refl
digit-narrow group = refl
digit-narrow ai = refl
digit-narrow system = refl
digit-narrow customer = refl
digit-narrow temp = refl
digit-narrow channel = refl
digit-narrow broadcast = refl

len-cons : (c : ℕ) (s : Text) → len (c ∷ s) ≡ len_utf8 c + len s
unfolding len
len-cons c s = refl

version-narrow : len_utf8 65 ≡ 1
unfolding len_utf8
version-narrow = refl

validate-typed :
    (t : ConversationType) (s : Text)
    → 1 ≤ len s
    → validate_conversation_id (digit t ∷ (65 ∷ s)) ≡ check_opaque_id t s
unfolding validate_conversation_id
validate-typed t s h = ground (
  arith,
  len-cons (digit t) (65 ∷ s),
  len-cons 65 s,
  digit-narrow t,
  version-narrow,
  from_prefix-digit t,
)

len_utf8-bounds : (c : ℕ) → (1 ≤ len_utf8 c) × (len_utf8 c ≤ 4)
unfolding len_utf8
len_utf8-bounds c = ground arith

len_utf8-narrow : (c : ℕ) → nat_beq (len_utf8 c) 1 ≡ not (leb 128 c)
unfolding len_utf8
len_utf8-narrow c = ground arith

abbrev pub is_panicked : Validation → Bool
is_panicked (valid t) = false
is_panicked (invalid e) = false
is_panicked panicked = true

check_type-answers :
    (o : Option ConversationType) (f s : Text) → is_panicked (check_type o f s) ≡ false
check_type-answers none f s = refl
check_type-answers (some temp) f s = ground arith
check_type-answers (some single) f s = ground arith
check_type-answers (some group) f s = ground arith
check_type-answers (some ai) f s = ground arith
check_type-answers (some system) f s = ground arith
check_type-answers (some customer) f s = ground arith
check_type-answers (some channel) f s = ground arith
check_type-answers (some broadcast) f s = ground arith

-- The first two characters are not both ASCII.
abbrev pub is_wide : Text → Bool
is_wide [] = false
is_wide (c ∷ []) = leb 128 c
is_wide (c ∷ (d ∷ s)) = leb 128 c || leb 128 d

len-one : (c : ℕ) → leb 3 (len (c ∷ [])) ≡ true → leb 128 c ≡ true
unfolding len len_utf8
len-one c h = ground arith

-- The check of an id panics exactly if the id has at least three bytes and its first or second
-- character is not ASCII.
pub validate_conversation_id-panics :
    (id : Text) → is_panicked (validate_conversation_id id) ≡ (leb 3 (len id) && is_wide id)
unfolding validate_conversation_id
validate_conversation_id-panics [] = ground arith
validate_conversation_id-panics (c ∷ []) = ground (arith, len-one c)
validate_conversation_id-panics (c ∷ (d ∷ s)) = ground (
  arith,
  len_utf8-narrow c,
  len_utf8-narrow d,
  check_type-answers (from_prefix (c ∷ [])) (c ∷ []) s,
)

check_hashed-valid :
    (t : ConversationType) (s : Text)
    → len s ≡ 16
    → all is_base32 s ≡ true
    → check_hashed t s ≡ valid t
check_hashed-valid t s h a = ground arith

len-append : (s t : Text) → len (s ++ t) ≡ len s + len t
unfolding len
len-append [] t = omega arith
len-append (c ∷ s) t = ground (arith, len-append s t)

len-hex_digits : (k n : ℕ) → len (hex_digits k n) ≡ k
unfolding hex_digits len len_utf8
len-hex_digits zero n = refl
len-hex_digits (suc k) n =
    let low = n % 16 in
    let digit_of = if ltb low 10 then 48 + low else 87 + low in
    ground (arith, len-append (hex_digits k (n / 16)) (digit_of ∷ []), len-hex_digits k (n / 16))

temp-ulid :
    (s : Text)
    → len s ≡ 26
    → validate_conversation_id (generate_temp_conversation_id (ulid s)) ≡ valid temp
unfolding generate_temp_conversation_id
temp-ulid s h = validate-typed temp s (omega arith) ∙ ground arith

temp-random_u128 :
    (n : ℕ)
    → validate_conversation_id (generate_temp_conversation_id (random_u128 n))
      ≡ invalid (invalid_temp_length 32)
unfolding generate_temp_conversation_id
temp-random_u128 n =
    let h = len-hex_digits 32 n in
    validate-typed temp (hex_digits 32 n) (omega arith) ∙ ground arith

-- What the program relies on: SHA-256 gives 32 bytes, and ten bytes in Crockford's base 32 are sixteen
-- characters of its alphabet.
module _ (sha256 : Text → List ℕ) (base32 : List ℕ → Text)
    (sha256-length : (s : Text) → length (sha256 s) ≡ 32)
    (base32-alphabet : (bytes : List ℕ)
      → length bytes ≡ 10
      → (len (base32 bytes) ≡ 16) × (all is_base32 (base32 bytes) ≡ true)) where
  accepted :
      (t : ConversationType) (input : Text)
      → check_opaque_id t (opaque_id sha256 base32 input)
        ≡ check_hashed t (opaque_id sha256 base32 input)
      → validate_conversation_id (digit t ∷ (65 ∷ opaque_id sha256 base32 input)) ≡ valid t
  accepted t input same =
      let b =
        base32-alphabet (take 10 (sha256 input))
          (omega (arith, length-take 10 (sha256 input), sha256-length input)) in
      validate-typed t (opaque_id sha256 base32 input) (omega (arith, b.0))
      ∙ same
      ∙ check_hashed-valid t (opaque_id sha256 base32 input) b.0 b.1

  -- If digests have 32 bytes, ten bytes are encoded as sixteen base-32 characters and a ULID has
  -- 26, the id that each generator makes is accepted as the type it was made for, but for a
  -- temporary id made of a random number, as in the browser: that is always refused for its
  -- length.
  pub validate-generate :
      (a b new_ulid : Text) (scope : Option Text) (n : ℕ)
      → len new_ulid ≡ 26
      → (validate_conversation_id (generate_single_chat_conversation_id sha256 base32 a b)
          ≡ valid single)
        × (validate_conversation_id (generate_group_conversation_id sha256 base32 a) ≡ valid group)
        × (validate_conversation_id (generate_ai_conversation_id sha256 base32 a b) ≡ valid ai)
        × (validate_conversation_id (generate_system_conversation_id sha256 base32 a scope)
            ≡ valid system)
        × (validate_conversation_id (generate_customer_conversation_id sha256 base32 a b)
            ≡ valid customer)
        × (validate_conversation_id (generate_channel_conversation_id sha256 base32 a)
            ≡ valid channel)
        × (validate_conversation_id (generate_broadcast_conversation_id sha256 base32 a)
            ≡ valid broadcast)
        × (validate_conversation_id (generate_temp_conversation_id (ulid new_ulid)) ≡ valid temp)
        × (validate_conversation_id (generate_temp_conversation_id (random_u128 n))
            ≡ invalid (invalid_temp_length 32))
  unfolding generate_single_chat_conversation_id generate_group_conversation_id
      generate_ai_conversation_id generate_system_conversation_id generate_customer_conversation_id
      generate_channel_conversation_id generate_broadcast_conversation_id
  validate-generate a b new_ulid scope n h = (
    accepted single _ refl,
    accepted group _ refl,
    accepted ai _ refl,
    accepted system _ refl,
    accepted customer _ refl,
    accepted channel _ refl,
    accepted broadcast _ refl,
    temp-ulid new_ulid h,
    temp-random_u128 n,
  )

check_type-form :
    (c : ℕ) (t : ConversationType) (s : Text)
    → check_type (from_prefix (c ∷ [])) (c ∷ []) s ≡ valid t
    → (c ≡ digit t) × (len s ≡ (if digit t == digit temp then 26 else 16))
unfolding from_prefix
check_type-form c t s h = ground (arith, nat_beq_iff (digit t) 54)

-- An accepted id is the digit of its type, `A`, and an opaque part of the length that its type
-- asks for.
pub validate-form :
    (id : Text) (t : ConversationType)
    → validate_conversation_id id ≡ valid t
    → (id ≡ prefix t ++ (codes "A" ++ drop 2 id))
      × (len (drop 2 id) ≡ (if digit t == digit temp then 26 else 16))
unfolding validate_conversation_id prefix
validate-form [] t h = ground arith
validate-form (c ∷ []) t h = ground arith
validate-form (c ∷ (d ∷ s)) t h = ground (arith, nat_beq_iff d 65, check_type-form c t s)

-- ===== src/Conversation.antt =====
-- Conversation ids: src/common/conversation.rs. SHA-256 and Crockford's base 32 are other packages' code:
-- arguments, with what the program relies on as hypotheses.
pub mod Laws
use flare_core.Base.{
  ℕ, zero, suc, ◌/◌, ◌%◌, ◌+◌, ◌-◌, ◌≤◌, ◌<◌, ◌≡◌, refl, ap, ◌∙◌, Bool, true, false, not, ◌&&◌,
  ◌||◌, List, [], ◌∷◌, ◌++◌, Option, none, some, arith, Text, text_eq, text_beq, text_beq_iff,
  nat_eq, ◌==◌, ltb, leb, nat_beq, if◌then◌else◌, length, take, is_empty,
}
use flare_core.Base.Chars.{codes, len, len_utf8}

pub data ConversationType : Type 0 where
  single group ai system customer temp channel broadcast : ConversationType

unfoldable pub from_str : Text → Option ConversationType
unfolding text_beq
from_str s =
    if (s == codes "1") || (s == codes "single")
    then some single
    else if (s == codes "2") || (s == codes "group")
    then some group
    else if (s == codes "3") || (s == codes "ai")
    then some ai
    else if (s == codes "4") || (s == codes "system")
    then some system
    else if (s == codes "5") || (s == codes "customer")
    then some customer
    else if (s == codes "6") || (s == codes "temp")
    then some temp
    else if (s == codes "7") || (s == codes "channel")
    then some channel
    else if (s == codes "8") || (s == codes "broadcast")
    then some broadcast
    else none

-- The digit of a type's prefix.
abbrev pub digit : ConversationType → ℕ
digit single = 49
digit group = 50
digit ai = 51
digit system = 52
digit customer = 53
digit temp = 54
digit channel = 55
digit broadcast = 56

unfoldable pub prefix : ConversationType → Text
prefix t = digit t ∷ []

unfoldable pub from_prefix : Text → Option ConversationType
unfolding text_beq
from_prefix s =
    if s == codes "1"
    then some single
    else if s == codes "2"
    then some group
    else if s == codes "3"
    then some ai
    else if s == codes "4"
    then some system
    else if s == codes "5"
    then some customer
    else if s == codes "6"
    then some temp
    else if s == codes "7"
    then some channel
    else if s == codes "8"
    then some broadcast
    else none

-- `str::cmp`: bytes, whose order in UTF-8 is that of the scalar values.
unfoldable pub is_greater : Text → Text → Bool
is_greater [] t = false
is_greater (c ∷ s) [] = true
is_greater (c ∷ s) (d ∷ t) = let rest = is_greater s t in if nat_beq c d then rest else ltb d c

module _ (sha256 : Text → List ℕ) (base32 : List ℕ → Text) where
  -- The first ten bytes of the digest, in base 32.
  abbrev pub opaque_id : Text → Text
  opaque_id input = base32 (take 10 (sha256 input))

  abbrev ordered : Text → Text → Text × Text
  ordered user1 user2 = if is_greater user1 user2 then (user2, user1) else (user1, user2)

  unfoldable pub generate_single_chat_conversation_id : Text → Text → Text
  generate_single_chat_conversation_id user1 user2 =
      let (min_id, max_id) = ordered user1 user2 in
      codes "1A" ++ opaque_id (codes "DM:v1:" ++ (min_id ++ (codes ":" ++ max_id)))

  unfoldable pub generate_group_conversation_id : Text → Text
  generate_group_conversation_id group_id = codes "2A" ++ opaque_id (codes "GROUP:v1:" ++ group_id)

  unfoldable pub generate_channel_conversation_id : Text → Text
  generate_channel_conversation_id channel_id =
      codes "7A" ++ opaque_id (codes "CHANNEL:v1:" ++ channel_id)

  unfoldable pub generate_broadcast_conversation_id : Text → Text
  generate_broadcast_conversation_id broadcast_id =
      codes "8A" ++ opaque_id (codes "BROADCAST:v1:" ++ broadcast_id)

  unfoldable pub generate_ai_conversation_id : Text → Text → Text
  generate_ai_conversation_id user_id ai_scope =
      codes "3A" ++ opaque_id (codes "AI:v1:" ++ (user_id ++ (codes ":" ++ ai_scope)))

  unfoldable pub generate_customer_conversation_id : Text → Text → Text
  generate_customer_conversation_id customer_id by =
      codes "5A" ++ opaque_id (codes "CS:v1:" ++ (customer_id ++ (codes ":" ++ by)))

  abbrev unwrap_or_default : Option Text → Text
  unwrap_or_default none = []
  unwrap_or_default (some s) = s

  unfoldable pub generate_system_conversation_id : Text → Option Text → Text
  generate_system_conversation_id system_id scope =
      codes "4A"
      ++ opaque_id (codes "SYS:v1:" ++ (system_id ++ (codes ":" ++ unwrap_or_default scope)))

-- The low digits of a number in lower-case hexadecimal, as many as asked for.
unfoldable pub hex_digits : ℕ → ℕ → Text
hex_digits zero n = []
hex_digits (suc k) n =
    let low = n % 16 in hex_digits k (n / 16) ++ (if ltb low 10 then 48 + low else 87 + low) ∷ []

-- What a temporary id is made of: a new ULID, or in the browser a random number of 128 bits.
pub data Opaque : Type 0 where
  ulid : Text → Opaque
  random_u128 : ℕ → Opaque

unfoldable pub generate_temp_conversation_id : Opaque → Text
unfolding hex_digits
generate_temp_conversation_id (ulid s) = codes "6A" ++ s
generate_temp_conversation_id (random_u128 n) = codes "6A" ++ hex_digits 32 n

pub data CidError : Type 0 where
  empty_id too_short invalid_characters : CidError
  unsupported_version invalid_prefix : Text → CidError
  invalid_temp_length invalid_opaque_length : ℕ → CidError

-- Slicing a string inside a character panics.
pub data Validation : Type 0 where
  valid : ConversationType → Validation
  invalid : CidError → Validation
  panicked : Validation

-- 0-9, A-H, J-K, M-N, P-T, V-Z
unfoldable pub is_base32 : ℕ → Bool
is_base32 c =
    (leb 48 c && leb c 57)
    || (leb 65 c && leb c 72)
    || (leb 74 c && leb c 75)
    || (leb 77 c && leb c 78)
    || (leb 80 c && leb c 84)
    || (leb 86 c && leb c 90)

abbrev pub all : (ℕ → Bool) → Text → Bool
all p [] = true
all p (c ∷ s) = p c && all p s

abbrev check_temp : Text → Validation
check_temp s = if nat_beq (len s) 26 then valid temp else invalid (invalid_temp_length (len s))

abbrev check_hashed : ConversationType → Text → Validation
check_hashed t s =
    if not (nat_beq (len s) 16)
    then invalid (invalid_opaque_length (len s))
    else if all is_base32 s
    then valid t
    else invalid invalid_characters

abbrev check_opaque_id : ConversationType → Text → Validation
check_opaque_id temp s = check_temp s
check_opaque_id t s = check_hashed t s

abbrev check_type : Option ConversationType → Text → Text → Validation
check_type none first s = invalid (invalid_prefix first)
check_type (some t) first s = check_opaque_id t s

-- `&id[..1]`, `&id[1..2]` and `&id[2..]`: the first two characters take one byte each, or it panics.
abbrev check_slices : Text → Validation
check_slices (c ∷ d ∷ s) =
    if not (nat_beq (len_utf8 c) 1)
    then panicked
    else if not (nat_beq (len_utf8 d) 1)
    then panicked
    else if nat_beq d 65
    then check_type (from_prefix (c ∷ [])) (c ∷ []) s
    else invalid (unsupported_version (d ∷ []))
check_slices _ = panicked

unfoldable pub validate_conversation_id : Text → Validation
validate_conversation_id id =
    if is_empty id
    then invalid empty_id
    else if ltb (len id) 3
    then invalid too_short
    else check_slices id

-- `validate(..).ok()`; a panic is not caught.
pub data Answer (A : Type 0) : Type 0 where
  answer : A → Answer A
  panics : Answer A

abbrev extracted : Validation → Answer (Option ConversationType)
extracted (valid t) = answer (some t)
extracted (invalid e) = answer none
extracted panicked = panics

unfoldable pub extract_conversation_type : Text → Answer (Option ConversationType)
extract_conversation_type id = extracted (validate_conversation_id id)

abbrev is_answer : ConversationType → Answer (Option ConversationType) → Answer Bool
is_answer t panics = panics
is_answer t (answer none) = answer false
is_answer t (answer (some u)) = answer (digit t == digit u)

unfoldable pub is_single_chat_conversation : Text → Answer Bool
is_single_chat_conversation id = is_answer single (extract_conversation_type id)

unfoldable pub is_group_chat_conversation : Text → Answer Bool
is_group_chat_conversation id = is_answer group (extract_conversation_type id)

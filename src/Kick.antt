-- ===== src/Kick.antt =====
-- Why a server kicks a client, and whether the client may come back: src/common/kick.rs, with the
-- standard library's UTF-8.
use flare_core.Base.{
  ℕ, zero, suc, ◌+◌, ◌*◌, ◌-◌, ◌%◌, ◌≡◌, refl, ◌↔◌, Bool, true, false, ◌&&◌, ◌||◌, List, [], ◌∷◌,
  ◌++◌, Option, none, some, arith, Text, text_eq, text_beq, leb, ltb, nat_beq, nat_beq_iff,
  if◌then◌else◌, is_empty,
}
use flare_core.Base.Chars.{codes, trim, strip_prefix, eq_ignore_ascii_case, to_ascii_lowercase}
use flare_core.Base.Dict.{Dict, get, insert}
use Prim.Native.Nat.{◌/◌}

-- `str::as_bytes`
unfoldable pub as_bytes : Text → List ℕ
as_bytes [] = []
as_bytes (c ∷ s) =
    let rest = as_bytes s in
    if ltb c 128
    then c ∷ rest
    else if ltb c 2048
    then (192 + c / 64) ∷ (128 + c % 64) ∷ rest
    else if ltb c 65536
    then (224 + c / 4096) ∷ (128 + (c / 64) % 64) ∷ (128 + c % 64) ∷ rest
    else (240 + c / 262144)
      ∷ (128 + (c / 4096) % 64)
      ∷ (128 + (c / 64) % 64)
      ∷ (128 + c % 64)
      ∷ rest

-- Between two characters, or with so many bytes to come, the bits read and the range of the next byte.
pub data Utf8 : Type 0 where
  between failed_utf8 : Utf8
  within : ℕ → ℕ → ℕ → ℕ → Utf8

abbrev pub first_byte : ℕ → Utf8
first_byte b =
    if leb 194 b && leb b 223
    then within 0 (b - 192) 128 191
    else if nat_beq b 224
    then within 1 0 160 191
    else if nat_beq b 237
    then within 1 13 128 159
    else if leb 225 b && leb b 239
    then within 1 (b - 224) 128 191
    else if nat_beq b 240
    then within 2 0 144 191
    else if leb 241 b && leb b 243
    then within 2 (b - 240) 128 191
    else if nat_beq b 244
    then within 2 4 128 143
    else failed_utf8

-- The next state, and the character that a byte completes.
abbrev pub next_byte : Utf8 → ℕ → Utf8 × Option ℕ
next_byte between b = if ltb b 128 then (between, some b) else (first_byte b, none)
next_byte failed_utf8 b = (failed_utf8, none)
next_byte (within n bits lo hi) b =
    if leb lo b && leb b hi
    then elim n [
      | zero ↦ (between, some (bits * 64 + (b - 128)))
      | suc k ↦ (within k (bits * 64 + (b - 128)) 128 191, none)
    ]
    else (failed_utf8, none)

abbrev pub prepend : Option ℕ → Option Text → Option Text
prepend none s = s
prepend (some c) none = none
prepend (some c) (some s) = some (c ∷ s)

-- `std::str::from_utf8(bytes).ok()`
unfoldable pub decode : Utf8 → List ℕ → Option Text
decode between [] = some []
decode _ [] = none
decode u (b ∷ bytes) = prepend (next_byte u b).1 (decode (next_byte u b).0 bytes)

unfoldable pub from_utf8 : List ℕ → Option Text
unfolding decode
from_utf8 bytes = decode between bytes

abbrev pub device_conflict_reason : Text
device_conflict_reason = codes "DEVICE_CONFLICT"

abbrev pub tenant_unavailable_reason : Text
tenant_unavailable_reason = codes "TENANT_UNAVAILABLE"

abbrev legacy_device_conflict_reason : Text
legacy_device_conflict_reason = codes "device_conflict"

abbrev unspecified_kick_reason : Text
unspecified_kick_reason = codes "KICKED"

-- `SystemType::Kicked as i32`, of proto/commands.proto.
abbrev pub kicked_type : ℕ
kicked_type = 10

-- What this module reads of a `SystemCommand`.
pub record SystemCommand : Type 0 where
  pub type : ℕ
  pub message : Text
  pub metadata : Dict Text (List ℕ)

-- `rest` follows the token: nothing, or a colon.
abbrev pub is_token_end : Option Text → Bool
is_token_end none = false
is_token_end (some []) = true
is_token_end (some (c ∷ s)) = nat_beq c 58

unfoldable pub has_reason_token : Text → Text → Bool
has_reason_token reason token = is_token_end (strip_prefix (trim reason) token)

unfoldable pub is_device_conflict_reason : Text → Bool
is_device_conflict_reason reason = has_reason_token reason device_conflict_reason

unfoldable pub ends_session : Text → Bool
ends_session reason =
    has_reason_token reason device_conflict_reason
    || has_reason_token reason tenant_unavailable_reason

abbrev read_text : Option (List ℕ) → Option Text
read_text none = none
read_text (some bytes) = from_utf8 bytes

-- The metadata's `reason` as text.
abbrev metadata_reason : SystemCommand → Option Text
metadata_reason c = read_text (get (codes "reason") c.metadata)

abbrev is_legacy : Option Text → Bool
is_legacy none = false
is_legacy (some reason) = eq_ignore_ascii_case (trim reason) legacy_device_conflict_reason

unfoldable pub is_device_conflict_kick : SystemCommand → Bool
is_device_conflict_kick c =
    nat_beq c.type kicked_type
    && (is_device_conflict_reason c.message || is_legacy (metadata_reason c))

abbrev or_unspecified : Option Text → Text
or_unspecified none = unspecified_kick_reason
or_unspecified (some reason) =
    if is_empty (trim reason) then unspecified_kick_reason else trim reason

unfoldable pub kick_reason : SystemCommand → Text
kick_reason c =
    if is_device_conflict_kick c
    then device_conflict_reason
    else if is_empty (trim c.message)
    then or_unspecified (metadata_reason c)
    else trim c.message

-- The platform is an argument as its `Debug` prints it.
unfoldable pub device_conflict_kicked : Text → Text → SystemCommand
device_conflict_kicked platform new_device_id = record {
  type = kicked_type;
  message = device_conflict_reason;
  metadata = insert (codes "new_device_id") (as_bytes new_device_id) (
      insert (codes "platform") (as_bytes platform)
        (insert (codes "reason") (as_bytes device_conflict_reason) []));
}

strip_prefix_sound : (s p t : Text) → strip_prefix s p ≡ some t → s ≡ p ++ t
unfolding strip_prefix
strip_prefix_sound s [] t h = ground arith
strip_prefix_sound [] (d ∷ p) t h = ground arith
strip_prefix_sound (c ∷ s) (d ∷ p) t h = ground (arith, nat_beq_iff c d, strip_prefix_sound s p t)

strip_prefix-append : (p t : Text) → strip_prefix (p ++ t) p ≡ some t
unfolding strip_prefix
strip_prefix-append [] t = refl
strip_prefix-append (c ∷ p) t = ground (arith, nat_beq_iff c c, strip_prefix-append p t)

is_token_end-cases :
    (o : Option Text)
    → is_token_end o ≡ true
    → (rest : Text) × (o ≡ some rest) × (is_token_end (some rest) ≡ true)
is_token_end-cases none h = absurd (ground arith)
is_token_end-cases (some rest) h = (rest, refl, h)

-- But for white space around it, a reason has a token exactly if it is the token followed by
-- nothing, or by a colon and anything.
pub has_reason_token_iff :
    (reason token : Text)
    → (has_reason_token reason token ≡ true)
      ↔ ((rest : Text) × (trim reason ≡ token ++ rest) × (is_token_end (some rest) ≡ true))
unfolding has_reason_token
has_reason_token_iff reason token = (
  λ h.
      let (rest, e, at) = is_token_end-cases (strip_prefix (trim reason) token) h in
      (rest, strip_prefix_sound (trim reason) token rest e, at),
  λ (rest, e, at). rw (e, strip_prefix-append token rest) at,
)

conflict_reason_lem : is_device_conflict_reason device_conflict_reason ≡ true
unfolding is_device_conflict_reason has_reason_token trim strip_prefix
conflict_reason_lem = refl

conflict-ends_session : ends_session device_conflict_reason ≡ true
unfolding ends_session has_reason_token trim strip_prefix
conflict-ends_session = refl

legacy_lem :
    (platform new_device_id : Text)
    → is_legacy (metadata_reason (device_conflict_kicked platform new_device_id)) ≡ true
unfolding device_conflict_kicked get insert as_bytes from_utf8 decode trim eq_ignore_ascii_case
    to_ascii_lowercase text_beq
legacy_lem platform new_device_id = refl

conflict_kick_reason :
    (c : SystemCommand)
    → c.type ≡ kicked_type
    → is_legacy (metadata_reason c) ≡ true
    → kick_reason c ≡ device_conflict_reason
unfolding kick_reason is_device_conflict_kick
conflict_kick_reason c t l = ground arith

conflict_type_lem :
    (platform new_device_id : Text)
    → (device_conflict_kicked platform new_device_id).type ≡ kicked_type
unfolding device_conflict_kicked
conflict_type_lem platform new_device_id = refl

-- A client that a server kicks for a new device reports a device conflict, whatever the message
-- says, and takes its session as ended.
pub kick_reason-device_conflict_kicked :
    (platform new_device_id message : Text)
    → let command = record (device_conflict_kicked platform new_device_id) { message = message } in
      (kick_reason command ≡ device_conflict_reason) × (ends_session (kick_reason command) ≡ true)
kick_reason-device_conflict_kicked platform new_device_id message =
    let command = record (device_conflict_kicked platform new_device_id) { message = message } in
    let same =
      conflict_kick_reason command (conflict_type_lem platform new_device_id)
        (legacy_lem platform new_device_id) in
    (same, rw same conflict-ends_session)

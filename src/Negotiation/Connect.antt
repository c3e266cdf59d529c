-- ===== src/Negotiation/Connect.antt =====
-- Reading `CONNECT`: src/server/connection/negotiation.rs. `str::to_lowercase`, which is Unicode's, is
-- an argument.
use flare_core.Base.{
  ℕ, Bool, true, false, not, ◌||◌, List, [], ◌∷◌, ◌++◌, Option, none, some, Text, text_eq, text_beq,
  ◌==◌, nat_eq, nat_beq, if◌then◌else◌, contains, is_empty, map, filter,
}
use flare_core.Base.Chars.{codes, trim, eq_ignore_ascii_case}
use flare_core.Base.Dict.{Dict, get}
use flare_core.Device.Platform.{
  DevicePlatform, DeviceInfo, other, from_str, new, with_model, with_app_version,
  with_system_version, with_metadata,
}
use flare_core.Connection.Info.{
  SerializationFormat, protobuf, json, CompressionAlgorithm, uncompressed, EncryptionAlgorithm,
  unencrypted, tenant_id_metadata_key,
}
use flare_core.Kick.{SystemCommand, from_utf8}
use flare_core.Negotiation.Algorithms.{
  compression_beq, compression_eq, compression_from_str, encryption_from_str,
}

-- The keys of the metadata.
abbrev pub metadata_compression : Text
metadata_compression = codes "compression"

abbrev pub metadata_accept_compression : Text
metadata_accept_compression = codes "accept_compression"

abbrev pub metadata_format : Text
metadata_format = codes "format"

abbrev pub metadata_encryption : Text
metadata_encryption = codes "encryption"

abbrev pub metadata_device_id : Text
metadata_device_id = codes "device_id"

abbrev pub metadata_platform : Text
metadata_platform = codes "platform"

abbrev pub metadata_model : Text
metadata_model = codes "model"

abbrev pub metadata_app_version : Text
metadata_app_version = codes "app_version"

abbrev pub metadata_system_version : Text
metadata_system_version = codes "system_version"

abbrev pub metadata_user_id : Text
metadata_user_id = codes "user_id"

abbrev pub metadata_force_format : Text
metadata_force_format = codes "force_format"

abbrev pub device_reserved_metadata_keys : List Text
device_reserved_metadata_keys =
    metadata_compression ∷ metadata_accept_compression ∷ metadata_format ∷ metadata_encryption
    ∷ metadata_device_id ∷ metadata_platform ∷ metadata_model ∷ metadata_app_version
    ∷ metadata_system_version ∷ metadata_user_id ∷ tenant_id_metadata_key ∷ metadata_force_format
    ∷ []

unfoldable pub is_reserved_device_metadata_key : Text → Bool
unfolding text_beq
is_reserved_device_metadata_key key = contains device_reserved_metadata_keys key

abbrev pub Metadata : Type 0
Metadata = Dict Text (List ℕ)

abbrev pub and_then {ℓ κ} : {A : Type ℓ} {B : Type κ} → Option A → (A → Option B) → Option B
and_then none f = none
and_then (some a) f = f a

unfoldable pub metadata_string : Metadata → Text → Option Text
unfolding get from_utf8
metadata_string metadata key = and_then (get key metadata) from_utf8

abbrev named_format : Text → SerializationFormat
named_format s =
    if eq_ignore_ascii_case s (codes "protobuf") || eq_ignore_ascii_case s (codes "proto")
    then protobuf
    else json

abbrev format_given : Option Text → SerializationFormat × Bool
format_given none = (json, false)
format_given (some s) = (named_format s, true)

unfoldable pub parse_serialization_format : Metadata → SerializationFormat × Bool
unfolding metadata_string
parse_serialization_format metadata = format_given (metadata_string metadata metadata_format)

-- `str::split(',')`
abbrev onto_first : ℕ → List Text → List Text
onto_first c [] = (c ∷ []) ∷ []
onto_first c (s ∷ rest) = (c ∷ s) ∷ rest

unfoldable pub split_commas : Text → List Text
split_commas [] = [] ∷ []
split_commas (c ∷ s) =
    let rest = split_commas s in if nat_beq c 44 then [] ∷ rest else onto_first c rest

-- A new algorithm that compresses is pushed.
abbrev pub push_new : List CompressionAlgorithm → CompressionAlgorithm → List CompressionAlgorithm
push_new accepted a =
    if a == uncompressed || contains accepted a then accepted else accepted ++ a ∷ []

abbrev pub push_all :
    List CompressionAlgorithm → List CompressionAlgorithm → List CompressionAlgorithm
push_all accepted [] = accepted
push_all accepted (a ∷ rest) = push_all (push_new accepted a) rest

pub record NegotiationResult : Type 0 where
  pub serialization_format : SerializationFormat
  pub serialization_format_specified : Bool
  pub compression : CompressionAlgorithm
  pub accepted_compressions : List CompressionAlgorithm
  pub encryption : EncryptionAlgorithm
  pub is_forced : Bool
  pub device_info : Option DeviceInfo
  pub user_id : Option Text
  pub tenant_id : Option Text

unfoldable pub negotiation_default : NegotiationResult
negotiation_default = record {
  serialization_format = json;
  serialization_format_specified = false;
  compression = uncompressed;
  accepted_compressions = [];
  encryption = unencrypted;
  is_forced = false;
  device_info = none;
  user_id = none;
  tenant_id = none;
}

abbrev pub platform_given : Option Text → DevicePlatform
platform_given none = other (codes "unknown")
platform_given (some s) = from_str s

-- `if let Some(x) = .. { info = info.with(x) }`
abbrev pub given : Option Text → (DeviceInfo → Text → DeviceInfo) → DeviceInfo → DeviceInfo
given none set d = d
given (some s) set d = set d s

abbrev pub custom_entry : Bool → Text → List ℕ → DeviceInfo → DeviceInfo
custom_entry true key value d = d
custom_entry false key value d = given (from_utf8 value) (λ x s. with_metadata x key s) d

-- The entries that are not reserved and are text.
unfoldable pub custom_metadata : Metadata → DeviceInfo → DeviceInfo
custom_metadata [] d = d
custom_metadata ((key, value) ∷ rest) d =
    custom_metadata rest (custom_entry (is_reserved_device_metadata_key key) key value d)

unfoldable pub parse_device_info : Metadata → Option DeviceInfo
unfolding metadata_string custom_metadata from_str new with_model with_app_version
    with_system_version
parse_device_info metadata = and_then (metadata_string metadata metadata_device_id) (λ device_id.
    let platform = platform_given (metadata_string metadata metadata_platform) in
    let described = given (metadata_string metadata metadata_system_version) with_system_version (
      given (metadata_string metadata metadata_app_version) with_app_version
        (given (metadata_string metadata metadata_model) with_model (new device_id platform))) in
    some (custom_metadata metadata described))

abbrev is_true : Option Text → Bool
is_true none = false
is_true (some s) = s == codes "true"

-- `SystemType::Connect as i32`, of proto/commands.proto.
abbrev connect_type : ℕ
connect_type = 1

module _ (to_lowercase : Text → Text) where
  abbrev compression_named : Option Text → CompressionAlgorithm
  compression_named none = uncompressed
  compression_named (some s) = compression_from_str (to_lowercase s)

  unfoldable pub parse_compression : Metadata → CompressionAlgorithm
  unfolding metadata_string compression_from_str
  parse_compression metadata = compression_named (metadata_string metadata metadata_compression)

  -- The names of a list: trimmed, and not empty.
  abbrev pub names_in : Text → List Text
  names_in s = filter (λ name. not (is_empty name)) (map trim (split_commas s))

  abbrev pub accepted_in : Option Text → List CompressionAlgorithm
  accepted_in none = []
  accepted_in (some s) =
      push_all [] (map (λ name. compression_from_str (to_lowercase name)) (names_in s))

  unfoldable pub parse_accepted_compressions : Metadata → List CompressionAlgorithm
  unfolding metadata_string compression_from_str compression_beq split_commas trim
  parse_accepted_compressions metadata =
      accepted_in (metadata_string metadata metadata_accept_compression)

  abbrev encryption_named : Option Text → EncryptionAlgorithm
  encryption_named none = unencrypted
  encryption_named (some s) = encryption_from_str (to_lowercase s)

  unfoldable pub parse_encryption : Metadata → EncryptionAlgorithm
  unfolding metadata_string encryption_from_str
  parse_encryption metadata = encryption_named (metadata_string metadata metadata_encryption)

  abbrev requested : Metadata → NegotiationResult
  requested metadata = record {
    serialization_format = (parse_serialization_format metadata).0;
    serialization_format_specified = (parse_serialization_format metadata).1;
    compression = parse_compression metadata;
    accepted_compressions = parse_accepted_compressions metadata;
    encryption = parse_encryption metadata;
    is_forced = is_true (metadata_string metadata metadata_force_format);
    device_info = parse_device_info metadata;
    user_id = metadata_string metadata metadata_user_id;
    tenant_id = metadata_string metadata tenant_id_metadata_key;
  }

  -- The argument is the frame's system command, if it has one.
  unfoldable pub parse_connect_message : Option SystemCommand → NegotiationResult
  unfolding parse_serialization_format parse_compression parse_accepted_compressions
      parse_encryption parse_device_info metadata_string negotiation_default
  parse_connect_message none = negotiation_default
  parse_connect_message (some c) =
      if nat_beq c.type connect_type then requested c.metadata else negotiation_default

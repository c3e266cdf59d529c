-- ===== src/Connection/Info.antt =====
-- `ConnectionInfo` of src/server/connection/manager/mod.rs, with the protocol's enumerations. A clock
-- reading is an argument: `now` of the monotonic clock, `unix` in seconds of Unix time.
use flare_core.Base.{
  ℕ, ◌-◌, Bool, true, false, not, [], Option, none, some, Text, text_eq, text_beq, if◌then◌else◌,
  ltb, nat_eq,
}
use flare_core.Base.Chars.{codes}
use flare_core.Base.Dict.{Dict, get}
use flare_core.Device.Platform.{DeviceInfo}
use flare_core.Device.Registry.Defs.{DeviceOwner, owner_new}

pub data SerializationFormat : Type 0 where
  protobuf json : SerializationFormat

pub data CompressionAlgorithm : Type 0 where
  uncompressed gzip zstd : CompressionAlgorithm
  custom : Text → CompressionAlgorithm

pub data EncryptionAlgorithm : Type 0 where
  unencrypted aes256_gcm : EncryptionAlgorithm
  custom : Text → EncryptionAlgorithm

-- The configuration of a `MessageParser`.
pub record MessageParser : Type 0 where
  pub default_format : SerializationFormat
  pub default_compression : CompressionAlgorithm
  pub default_encryption : EncryptionAlgorithm
  pub custom_format_name : Option Text

unfoldable pub parser_new :
    SerializationFormat → CompressionAlgorithm → EncryptionAlgorithm → MessageParser
parser_new format compression encryption = record {
  default_format = format;
  default_compression = compression;
  default_encryption = encryption;
  custom_format_name = none;
}

-- `PRE_NEGOTIATION_PARSER`
unfoldable pub pre_negotiation_parser : MessageParser
unfolding parser_new
pre_negotiation_parser = parser_new json uncompressed unencrypted

-- A pipeline is an object behind an `Arc`: its identity.
pub record ConnectionInfo : Type 0 where
  pub connection_id : Text
  pub user_id : Option Text
  pub created_at : ℕ
  pub last_active : ℕ
  pub metadata : Dict Text Text
  pub device_info : Option DeviceInfo
  pub serialization_format : SerializationFormat
  pub compression : CompressionAlgorithm
  pub encryption : EncryptionAlgorithm
  pub authenticated : Bool
  pub authenticated_at : Option ℕ
  pub negotiation_completed : Bool
  pub negotiation_confirmed : Bool
  pub cached_parser : Option MessageParser
  pub cached_pipeline : Option ℕ

-- `ConnectionInfo::new`
unfoldable pub info_new : ℕ → ℕ → Text → Bool → ConnectionInfo
info_new now unix id requires_auth = record {
  connection_id = id;
  user_id = none;
  created_at = now;
  last_active = now;
  metadata = [];
  device_info = none;
  serialization_format = json;
  compression = uncompressed;
  encryption = unencrypted;
  authenticated = not requires_auth;
  authenticated_at = if requires_auth then none else some unix;
  negotiation_completed = false;
  negotiation_confirmed = false;
  cached_parser = none;
  cached_pipeline = none;
}

-- `incoming` if there is one, else what is there.
abbrev pub or_keep {ℓ} : {A : Type ℓ} → Option A → Option A → Option A
or_keep none old = old
or_keep (some a) old = some a

unfoldable pub set_authenticated : ℕ → ConnectionInfo → Option Text → ConnectionInfo
set_authenticated unix info user = record info {
  authenticated = true;
  authenticated_at = some unix;
  user_id = or_keep user info.user_id;
}

abbrev pub tenant_id_metadata_key : Text
tenant_id_metadata_key = codes "tenant_id"

abbrev owner_in : Dict Text Text → Option Text → Option DeviceOwner
owner_in metadata none = none
owner_in metadata (some user) = some (owner_new (get tenant_id_metadata_key metadata) user)

-- The tenant and user of the connection; none if no user is bound.
unfoldable pub owner : ConnectionInfo → Option DeviceOwner
unfolding owner_new get text_beq
owner info = owner_in info.metadata info.user_id

-- `last_active.elapsed() > timeout`; `elapsed` stops at zero.
unfoldable pub is_timeout : ℕ → ConnectionInfo → ℕ → Bool
is_timeout now info timeout = ltb timeout (now - info.last_active)

unfoldable pub update_active : ℕ → ConnectionInfo → ConnectionInfo
update_active now info = record info { last_active = now }

-- ===== src/Negotiation/Settle.antt =====
-- What the server settles on: `determine_negotiation_result`, `ConnectionIdentity` and `is_typed_reason`
-- of src/server/transports/server_core.rs and `create_connect_ack` of
-- src/server/connection/negotiation.rs. The names that are registered are arguments.
use flare_core.Base.{
  ℕ, Bool, true, false, not, ◌&&◌, ◌||◌, [], ◌∷◌, Option, none, some, Text, text_eq, ◌==◌, nat_eq,
  nat_beq, leb, if◌then◌else◌, contains,
}
use flare_core.Base.Chars.{codes, len}
use flare_core.Base.Dict.{Dict, insert}
use flare_core.Connection.Info.{
  SerializationFormat, CompressionAlgorithm, uncompressed, EncryptionAlgorithm,
  tenant_id_metadata_key,
}
use flare_core.Negotiation.Algorithms.{
  compression_beq, compression_eq, compression_as_str, encryption_as_str, is_unencrypted,
}
use flare_core.Negotiation.Connect.{Metadata, NegotiationResult}

-- The defaults of a `ServerCore`.
pub record ServerDefaults : Type 0 where
  pub default_serialization_format : SerializationFormat
  pub default_compression : CompressionAlgorithm
  pub default_encryption : EncryptionAlgorithm

unfoldable pub determine_negotiation_result :
    ServerDefaults
    → NegotiationResult
    → SerializationFormat × CompressionAlgorithm × EncryptionAlgorithm
unfolding compression_beq is_unencrypted
determine_negotiation_result d n = (
  if n.is_forced || n.serialization_format_specified
      then n.serialization_format
      else d.default_serialization_format,
  if n.is_forced || not (n.compression == uncompressed)
      then n.compression
      else if not (d.default_compression == uncompressed)
          && contains n.accepted_compressions d.default_compression
      then d.default_compression
      else uncompressed,
  if is_unencrypted n.encryption then d.default_encryption else n.encryption,
)

-- What the acknowledgement says, with what else it carries.
pub record ConnectAck : Type 0 where
  pub format : SerializationFormat
  pub compression : Text
  pub encryption : Text
  pub metadata : Metadata

abbrev insert_all : Metadata → Metadata → Metadata
insert_all [] metadata = metadata
insert_all ((key, value) ∷ rest) metadata = insert_all rest (insert key value metadata)

abbrev extra_of : Option Metadata → Metadata
extra_of none = []
extra_of (some extra) = insert_all extra []

-- `create_connect_ack`; the arguments are the names registered for compressing and for encrypting.
unfoldable pub create_connect_ack :
    (Text → Bool)
    → (Text → Bool)
    → SerializationFormat
    → CompressionAlgorithm
    → EncryptionAlgorithm
    → Option Metadata
    → ConnectAck
unfolding compression_as_str encryption_as_str is_unencrypted insert
create_connect_ack compressors encryptors format compression encryption extra = record {
  format = format;
  compression =
      if compressors (compression_as_str compression)
      then compression_as_str compression
      else codes "none";
  encryption =
      if is_unencrypted encryption || encryptors (encryption_as_str encryption)
      then encryption_as_str encryption
      else codes "none";
  metadata = extra_of extra;
}

-- Whom a connection is for: `ConnectionIdentity`.
pub record ConnectionIdentity : Type 0 where
  pub user_id : Option Text
  pub tenant_id : Option Text
  pub metadata : Option (Dict Text Text)

unfoldable pub declared : NegotiationResult → ConnectionIdentity
declared n = record { user_id = n.user_id; tenant_id = n.tenant_id; metadata = some [] }

abbrev or_empty : Option (Dict Text Text) → Dict Text Text
or_empty none = []
or_empty (some m) = m

abbrev with_tenant : Option Text → Option (Dict Text Text) → Option (Dict Text Text)
with_tenant none metadata = metadata
with_tenant (some tenant) metadata = some (insert tenant_id_metadata_key tenant (or_empty metadata))

unfoldable pub connection_metadata : ConnectionIdentity → Option (Dict Text Text)
unfolding insert
connection_metadata i = with_tenant i.tenant_id i.metadata

abbrev is_uppercase : ℕ → Bool
is_uppercase c = leb 65 c && leb c 90

abbrev is_typed_char : ℕ → Bool
is_typed_char c = is_uppercase c || (leb 48 c && leb c 57) || nat_beq c 95

abbrev pub all_typed : Text → Bool
all_typed [] = true
all_typed (c ∷ s) = is_typed_char c && all_typed s

-- A reason that stands for itself, as DEVICE_CONFLICT does.
unfoldable pub is_typed_reason : Text → Bool
unfolding len
is_typed_reason [] = false
is_typed_reason (c ∷ s) = is_uppercase c && leb (len (c ∷ s)) 64 && all_typed s

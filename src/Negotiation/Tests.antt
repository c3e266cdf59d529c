-- ===== src/Negotiation/Tests.antt =====
-- The negotiation on concrete metadata; the names are in lower case already.
use flare_core.Base.{◌≡◌, refl, true, [], ◌∷◌, some, none, Text, text_beq, text_eq}
use flare_core.Base.Chars.{codes, trim, trim_start, is_whitespace, eq_ignore_ascii_case}
use flare_core.Base.Dict.{get, insert}
use flare_core.Connection.Info.{gzip, zstd, protobuf, unencrypted}
use flare_core.Device.Platform.{DeviceInfo, new, from_str, with_metadata}
use flare_core.Kick.{as_bytes, from_utf8, decode}
use flare_core.Negotiation.Algorithms.{compression_eq, compression_from_str, compression_beq}
use flare_core.Negotiation.Connect.{
  Metadata, negotiation_default, parse_accepted_compressions, parse_device_info, metadata_string,
  custom_metadata, is_reserved_device_metadata_key, split_commas,
}
use flare_core.Negotiation.Settle.{ServerDefaults, determine_negotiation_result}
use flare_core.Negotiation.Laws.{is_decodable, determine_negotiation_result-is_decodable}

abbrev asked : Metadata
asked =
    (codes "accept_compression", as_bytes (codes "gzip, none,zstd,gzip"))
    ∷ (codes "device_id", as_bytes (codes "d1"))
    ∷ (codes "trace_id", as_bytes (codes "t"))
    ∷ []

abbrev same : Text → Text
same s = s

two_accepted : parse_accepted_compressions same asked ≡ gzip ∷ zstd ∷ []
unfolding parse_accepted_compressions metadata_string get from_utf8 decode as_bytes text_beq trim
    trim_start is_whitespace split_commas compression_from_str compression_beq
two_accepted = refl

abbrev defaults : ServerDefaults
defaults = record {
  default_serialization_format = protobuf;
  default_compression = gzip;
  default_encryption = unencrypted;
}

determine_negotiation_result-is_decodable_example :
    is_decodable negotiation_default (determine_negotiation_result defaults negotiation_default).1
    ≡ true
determine_negotiation_result-is_decodable_example =
    determine_negotiation_result-is_decodable defaults negotiation_default

abbrev device : DeviceInfo
device = record {
  device_id = codes "d1";
  platform = from_str (codes "unknown");
  model = none;
  app_version = none;
  system_version = none;
  metadata = (codes "trace_id", codes "t") ∷ [];
}

device-parsed : parse_device_info asked ≡ some device
unfolding parse_device_info metadata_string custom_metadata is_reserved_device_metadata_key get
    insert from_utf8 decode as_bytes text_beq new from_str with_metadata eq_ignore_ascii_case
device-parsed = refl

-- ===== src/Parser/Registries.antt =====
-- The program's own registries behind `Codecs`: src/common/compression/registry.rs and algorithms.rs, and
-- src/common/serializer/registry.rs and formats.rs. The order of a `HashMap`'s values is that of the
-- list. What prost, serde_json and flate2 do, and the encryptors, are arguments.
use flare_core.Base.{
  ℕ, ◌+◌, ◌*◌, Bool, false, ◌&&◌, ◌||◌, not, List, [], ◌∷◌, Option, none, some, Text, text_eq,
  text_beq, nat_beq, ltb, is_empty, length, if◌then◌else◌, Result, ok, err,
}
use flare_core.Base.Chars.{codes}
use flare_core.Base.Dict.{Dict, get, insert}
use flare_core.Connection.Info.{
  SerializationFormat, protobuf, json, CompressionAlgorithm, uncompressed, gzip, zstd,
}
use flare_core.Parser.{Bytes, Serializer, Encryptor, Codecs}

pub record Compressor : Type 0 where
  pub compress : Bytes → Result Text Bytes
  pub decompress : Bytes → Result Text Bytes
  pub algorithm : CompressionAlgorithm
  pub can_detect : Bytes → Bool

-- `CompressionAlgorithm::as_str`
unfoldable pub algorithm_name : CompressionAlgorithm → Text
algorithm_name uncompressed = codes "none"
algorithm_name gzip = codes "gzip"
algorithm_name zstd = codes "zstd"
algorithm_name (CompressionAlgorithm.custom name) = name

abbrev pub no_compressor : Compressor
no_compressor = record {
  compress = λ bytes. ok bytes;
  decompress = λ bytes. ok bytes;
  algorithm = uncompressed;
  can_detect = λ bytes. false;
}

abbrev pub max_gzip_decompressed_len : ℕ
max_gzip_decompressed_len = 16 * 1024 * 1024

abbrev within_limit : Bytes → Result Text Bytes
within_limit bytes =
    if ltb max_gzip_decompressed_len (length bytes)
    then err (codes "Gzip decompressed payload exceeds limit")
    else ok bytes

abbrev limited : Result Text Bytes → Result Text Bytes
limited (err e) = err e
limited (ok bytes) = within_limit bytes

-- 0x1f 0x8b
abbrev pub has_gzip_magic : Bytes → Bool
has_gzip_magic (b ∷ (c ∷ rest)) = nat_beq b 31 && nat_beq c 139
has_gzip_magic _ = false

-- `GzEncoder`, and `GzDecoder` with the number of bytes to read at most.
abbrev pub gzip_compressor :
    (Bytes → Result Text Bytes) → (Bytes → ℕ → Result Text Bytes) → Compressor
gzip_compressor encode decode = record {
  compress = encode;
  decompress = λ bytes. limited (decode bytes (max_gzip_decompressed_len + 1));
  algorithm = gzip;
  can_detect = has_gzip_magic;
}

abbrev pub CompressionRegistry : Type 0
CompressionRegistry = Dict Text Compressor

unfoldable pub find_by_algorithm : CompressionRegistry → CompressionAlgorithm → Option Compressor
find_by_algorithm registry algorithm = get (algorithm_name algorithm) registry

abbrev or_no_compressor : Option Compressor → Compressor
or_no_compressor none = no_compressor
or_no_compressor (some c) = c

unfoldable pub get_compressor : CompressionRegistry → CompressionAlgorithm → Compressor
get_compressor registry algorithm = or_no_compressor (find_by_algorithm registry algorithm)

-- `values().find(can_detect)`
unfoldable pub detect_compressor : CompressionRegistry → Bytes → Option Compressor
detect_compressor [] bytes = none
detect_compressor ((name, c) ∷ rest) bytes =
    let later = detect_compressor rest bytes in if c.can_detect bytes then some c else later

abbrev tagged :
    CompressionAlgorithm → Result Text Bytes → Result Text (Bytes × CompressionAlgorithm)
tagged a (err e) = err e
tagged a (ok bytes) = ok (bytes, a)

abbrev decompressed_by : Option Compressor → Bytes → Result Text (Bytes × CompressionAlgorithm)
decompressed_by none bytes = ok (bytes, uncompressed)
decompressed_by (some c) bytes = tagged c.algorithm (c.decompress bytes)

unfoldable pub auto_decompress :
    CompressionRegistry → Bytes → Result Text (Bytes × CompressionAlgorithm)
auto_decompress registry bytes = decompressed_by (detect_compressor registry bytes) bytes

-- `register_defaults`, with the feature of gzip or without it.
unfoldable pub register_default_compressors : Option Compressor → CompressionRegistry
register_default_compressors none = insert (codes "none") no_compressor []
register_default_compressors (some g) =
    insert (codes "gzip") g (insert (codes "none") no_compressor [])

-- A serialiser with its `can_detect`.
pub record Format (F : Type 0) : Type 0 where
  pub serializer : Serializer F
  pub can_detect : Bytes → Bool

abbrev pub detects_protobuf : Bytes → Bool
detects_protobuf bytes = not (is_empty bytes)

-- `{` or `[`
abbrev pub detects_json : Bytes → Bool
detects_json [] = false
detects_json (first ∷ rest) = nat_beq first 123 || nat_beq first 91

abbrev format_name : SerializationFormat → Text
format_name protobuf = codes "protobuf"
format_name json = codes "json"

abbrev pub SerializationRegistry : Type 0 → Type 0
SerializationRegistry F = Dict Text (Format F)

module _ {F : Type 0} where
  -- Which of the two comes first in the map is left open.
  unfoldable pub register_default_formats :
      Bool → Serializer F → Serializer F → SerializationRegistry F
  unfolding insert text_beq
  register_default_formats json_first p j =
      let binary : Format F = record { serializer = p; can_detect = detects_protobuf } in
      let text : Format F = record { serializer = j; can_detect = detects_json } in
      if json_first
      then insert (codes "protobuf") binary (insert (codes "json") text [])
      else insert (codes "json") text (insert (codes "protobuf") binary [])

  abbrev serializer_in : Option (Format F) → Option (Serializer F)
  serializer_in none = none
  serializer_in (some f) = some f.serializer

  unfoldable pub find_by_name : SerializationRegistry F → Text → Option (Serializer F)
  find_by_name registry name = serializer_in (get name registry)

  unfoldable pub find_by_format :
      SerializationRegistry F → SerializationFormat → Option (Serializer F)
  find_by_format registry format = find_by_name registry (format_name format)

  unfoldable pub detect_formats : SerializationRegistry F → Bytes → List (Serializer F)
  detect_formats [] bytes = []
  detect_formats ((name, f) ∷ rest) bytes =
      let later = detect_formats rest bytes in
      if f.can_detect bytes then f.serializer ∷ later else later

  -- What `SerializationUtil`, `CompressionUtil` and the encryptors are to the parser.
  abbrev pub codecs_of :
      SerializationRegistry F → CompressionRegistry → (Text → Option Encryptor) → Codecs F
  codecs_of formats compressors find_encryptor = record {
    get_serializer = find_by_format formats;
    get_serializer_by_name = find_by_name formats;
    auto_detect = detect_formats formats;
    compress = λ bytes algorithm. (get_compressor compressors algorithm).compress bytes;
    auto_decompress = auto_decompress compressors;
    find_encryptor = find_encryptor;
  }

-- ===== src/Negotiation/Algorithms.antt =====
-- The names of src/common/compression/algorithms.rs and src/common/encryption/algorithms.rs.
use flare_core.Base.{
  ◌≡◌, ◌↔◌, Bool, true, false, ◌||◌, arith, Text, text_eq, text_beq, text_beq_iff, Equality, ◌==◌,
  nat_eq, if◌then◌else◌, is_empty,
}
use flare_core.Base.Chars.{codes}
use flare_core.Connection.Info.{
  SerializationFormat, protobuf, json, CompressionAlgorithm, uncompressed, gzip, zstd,
  EncryptionAlgorithm, unencrypted, aes256_gcm,
}

-- Derived `PartialEq`.
abbrev pub format_beq : SerializationFormat → SerializationFormat → Bool
format_beq protobuf protobuf = true
format_beq json json = true
format_beq _ _ = false

pub format_beq_iff : (a b : SerializationFormat) → (format_beq a b ≡ true) ↔ (a ≡ b)
format_beq_iff protobuf protobuf = ground arith
format_beq_iff json json = ground arith
format_beq_iff protobuf json = ground arith
format_beq_iff json protobuf = ground arith

instance abbrev pub format_eq : Equality SerializationFormat
format_eq = record { eq = format_beq; eq_iff = format_beq_iff }

unfoldable pub compression_beq : CompressionAlgorithm → CompressionAlgorithm → Bool
compression_beq uncompressed uncompressed = true
compression_beq gzip gzip = true
compression_beq zstd zstd = true
compression_beq (CompressionAlgorithm.custom s) (CompressionAlgorithm.custom t) = s == t
compression_beq _ _ = false

pub compression_beq_iff : (a b : CompressionAlgorithm) → (compression_beq a b ≡ true) ↔ (a ≡ b)
unfolding compression_beq
compression_beq_iff uncompressed uncompressed = ground arith
compression_beq_iff uncompressed gzip = ground arith
compression_beq_iff uncompressed zstd = ground arith
compression_beq_iff uncompressed (CompressionAlgorithm.custom t) = ground arith
compression_beq_iff gzip uncompressed = ground arith
compression_beq_iff gzip gzip = ground arith
compression_beq_iff gzip zstd = ground arith
compression_beq_iff gzip (CompressionAlgorithm.custom t) = ground arith
compression_beq_iff zstd uncompressed = ground arith
compression_beq_iff zstd gzip = ground arith
compression_beq_iff zstd zstd = ground arith
compression_beq_iff zstd (CompressionAlgorithm.custom t) = ground arith
compression_beq_iff (CompressionAlgorithm.custom s) uncompressed = ground arith
compression_beq_iff (CompressionAlgorithm.custom s) gzip = ground arith
compression_beq_iff (CompressionAlgorithm.custom s) zstd = ground arith
compression_beq_iff (CompressionAlgorithm.custom s) (CompressionAlgorithm.custom t) =
    ground (arith, text_beq_iff s t)

instance abbrev pub compression_eq : Equality CompressionAlgorithm
compression_eq = record { eq = compression_beq; eq_iff = compression_beq_iff }

unfoldable pub is_unencrypted : EncryptionAlgorithm → Bool
is_unencrypted unencrypted = true
is_unencrypted _ = false

-- `CompressionAlgorithm::as_str`
unfoldable pub compression_as_str : CompressionAlgorithm → Text
compression_as_str uncompressed = codes "none"
compression_as_str gzip = codes "gzip"
compression_as_str zstd = codes "zstd"
compression_as_str (CompressionAlgorithm.custom name) = name

-- `EncryptionAlgorithm::as_str`
unfoldable pub encryption_as_str : EncryptionAlgorithm → Text
encryption_as_str unencrypted = codes "none"
encryption_as_str aes256_gcm = codes "aes256gcm"
encryption_as_str (EncryptionAlgorithm.custom name) = name

-- `CompressionAlgorithm::from_str`, which always gives an algorithm, of a name in lower case.
unfoldable pub compression_from_str : Text → CompressionAlgorithm
unfolding text_beq
compression_from_str s =
    if s == codes "none" || is_empty s
    then uncompressed
    else if s == codes "gzip"
    then gzip
    else if s == codes "zstd"
    then zstd
    else CompressionAlgorithm.custom s

-- `EncryptionAlgorithm::from_str`, likewise.
unfoldable pub encryption_from_str : Text → EncryptionAlgorithm
unfolding text_beq
encryption_from_str s =
    if s == codes "none" || is_empty s
    then unencrypted
    else if s == codes "aes256gcm" || s == codes "aes-256-gcm"
    then aes256_gcm
    else EncryptionAlgorithm.custom s

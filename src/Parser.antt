-- ===== src/Parser.antt =====
-- `MessageParser` of src/common/message/parser.rs: a frame is serialised, compressed and encrypted, and
-- read back in the other order. The registries of serialisers, compressors and encryptors, behind which
-- other packages' codecs stand, are an interface: `Codecs`.
mod Tests
pub mod Laws
pub mod Registries
pub mod Defaults
use flare_core.Base.{
  ℕ, ◌≡◌, refl, Bool, true, false, not, List, [], ◌∷◌, Option, none, some, Text, if◌then◌else◌,
  Result, ok, err,
}
use flare_core.Base.Chars.{codes}
use flare_core.Connection.Info.{
  SerializationFormat, protobuf, json, CompressionAlgorithm, uncompressed, gzip, zstd,
  EncryptionAlgorithm, unencrypted, aes256_gcm, MessageParser,
}

abbrev pub Bytes : Type 0
Bytes = List ℕ

pub record Serializer (F : Type 0) : Type 0 where
  pub serialize : F → Result Text Bytes
  pub deserialize : Bytes → Result Text F

pub record Encryptor : Type 0 where
  pub encrypt : Bytes → Result Text Bytes
  pub decrypt : Bytes → Result Text Bytes

-- The registries, for frames of type `F`.
pub record Codecs (F : Type 0) : Type 0 where
  pub get_serializer : SerializationFormat → Option (Serializer F)
  pub get_serializer_by_name : Text → Option (Serializer F)
  pub auto_detect : Bytes → List (Serializer F)
  pub compress : Bytes → CompressionAlgorithm → Result Text Bytes
  pub auto_decompress : Bytes → Result Text (Bytes × CompressionAlgorithm)
  pub find_encryptor : Text → Option Encryptor

pub data ParseError : Type 0 where
  serializer_not_found no_compatible_serializer not_compressed : ParseError
  encryptor_not_found codec_error decrypt_failed decompress_failed deserialize_failed :
      Text → ParseError

-- `EncryptionAlgorithm::as_str`
abbrev pub encryption_name : EncryptionAlgorithm → Text
encryption_name unencrypted = codes "none"
encryption_name aes256_gcm = codes "aes256gcm"
encryption_name (EncryptionAlgorithm.custom name) = name

abbrev pub is_unencrypted : EncryptionAlgorithm → Bool
is_unencrypted unencrypted = true
is_unencrypted _ = false

abbrev pub is_uncompressed : CompressionAlgorithm → Bool
is_uncompressed uncompressed = true
is_uncompressed _ = false

abbrev pub lift : {A : Type 0} → (Text → ParseError) → Result Text A → Result ParseError A
lift f (ok a) = ok a
lift f (err e) = err (f e)

abbrev pub and_then :
    {A B : Type 0} → Result ParseError A → (A → Result ParseError B) → Result ParseError B
and_then (ok a) f = f a
and_then (err e) f = err e

module _ {F : Type 0} (c : Codecs F) where
  -- The serialiser of the custom format's name if there is one, or else of the format.
  abbrev pub serializer_of : MessageParser → SerializationFormat → Option (Serializer F)
  serializer_of p format = elim p.custom_format_name [
    | none ↦ c.get_serializer format
    | some name ↦ c.get_serializer_by_name name
  ]

  unfoldable pub should_compress_payload : CompressionAlgorithm → Bool
  should_compress_payload compression = not (is_uncompressed compression)

  abbrev encrypt_with : Option Encryptor → Text → Bytes → Result ParseError Bytes
  encrypt_with none name bytes = err (encryptor_not_found name)
  encrypt_with (some k) name bytes = lift codec_error (k.encrypt bytes)

  unfoldable pub encrypt_data : Bytes → EncryptionAlgorithm → Result ParseError Bytes
  encrypt_data bytes encryption =
      if is_unencrypted encryption
      then ok bytes
      else encrypt_with (c.find_encryptor (encryption_name encryption)) (encryption_name encryption)
          bytes

  unfoldable pub compress_data : Bytes → CompressionAlgorithm → Result ParseError Bytes
  unfolding should_compress_payload
  compress_data bytes compression =
      if should_compress_payload compression
      then lift codec_error (c.compress bytes compression)
      else ok bytes

  abbrev pub serialize_by : Option (Serializer F) → F → Result ParseError Bytes
  serialize_by none frame = err serializer_not_found
  serialize_by (some s) frame = lift codec_error (s.serialize frame)

  unfoldable pub serialize_with_format :
      MessageParser
      → F
      → SerializationFormat
      → CompressionAlgorithm
      → EncryptionAlgorithm
      → Result ParseError Bytes
  serialize_with_format p frame format compression encryption =
      and_then (serialize_by (serializer_of p format) frame) (λ bytes.
        and_then (compress_data bytes compression)
          (λ compressed. encrypt_data compressed encryption))

  unfoldable pub serialize : MessageParser → F → Result ParseError Bytes
  unfolding serialize_with_format
  serialize p frame =
      serialize_with_format p frame p.default_format p.default_compression p.default_encryption

  -- A failure is passed over if falling back is allowed.
  abbrev decrypted : Bool → Bytes → Result Text Bytes → Result ParseError Bytes
  decrypted allow bytes (ok plain) = ok plain
  decrypted true bytes (err e) = ok bytes
  decrypted false bytes (err e) = err (decrypt_failed e)

  abbrev pub decrypt_with : Option Encryptor → Text → Bool → Bytes → Result ParseError Bytes
  decrypt_with none name allow bytes = err (encryptor_not_found name)
  decrypt_with (some k) name allow bytes = decrypted allow bytes (k.decrypt bytes)

  unfoldable pub decrypt_data_with_fallback : MessageParser → Bytes → Bool → Result ParseError Bytes
  decrypt_data_with_fallback p bytes allow =
      if is_unencrypted p.default_encryption
      then ok bytes
      else decrypt_with (c.find_encryptor (encryption_name p.default_encryption))
          (encryption_name p.default_encryption) allow bytes

  abbrev pub decompressed :
      Bool → Bytes → Result Text (Bytes × CompressionAlgorithm) → Result ParseError Bytes
  decompressed allow bytes (ok (plain, detected)) =
      if not (is_uncompressed detected)
      then ok plain
      else if allow
      then ok bytes
      else err not_compressed
  decompressed true bytes (err e) = ok bytes
  decompressed false bytes (err e) = err (decompress_failed e)

  unfoldable pub decompress_data_with_fallback :
      MessageParser → Bytes → Bool → Result ParseError Bytes
  decompress_data_with_fallback p bytes allow =
      if is_uncompressed p.default_compression
      then ok bytes
      else decompressed allow bytes (c.auto_decompress bytes)

  -- The first serialiser that reads the data.
  abbrev pub first_read : List (Serializer F) → Bytes → Option F
  first_read [] bytes = none
  first_read (s ∷ rest) bytes =
      let later = first_read rest bytes in
      elim (s.deserialize bytes) [ ok frame ↦ some frame | err e ↦ later ]

  abbrev deserialize_by : (Text → ParseError) → Option (Serializer F) → Bytes → Result ParseError F
  deserialize_by f none bytes = err serializer_not_found
  deserialize_by f (some s) bytes = lift f (s.deserialize bytes)

  abbrev pub or_none : Option (Serializer F) → List (Serializer F)
  or_none none = []
  or_none (some s) = s ∷ []

  abbrev found : Option F → Result ParseError F
  found none = err no_compatible_serializer
  found (some frame) = ok frame

  abbrev pub found_or : Option F → Result ParseError F → Result ParseError F
  found_or none r = r
  found_or (some frame) r = ok frame

  unfoldable pub try_all_serializers : Bytes → Result ParseError F
  try_all_serializers bytes =
      found_or (first_read (or_none (c.get_serializer protobuf)) bytes)
        (found (first_read (or_none (c.get_serializer json)) bytes))

  unfoldable pub parse_decompressed_with_fallback :
      MessageParser → Bytes → Bool → Result ParseError F
  parse_decompressed_with_fallback p bytes allow =
      found_or (first_read (c.auto_detect bytes) bytes) (
        if allow
        then try_all_serializers bytes
        else deserialize_by deserialize_failed (serializer_of p p.default_format) bytes)

  unfoldable pub parse_with_fallback : MessageParser → Bytes → Bool → Result ParseError F
  parse_with_fallback p bytes allow = and_then (decrypt_data_with_fallback p bytes allow) (λ plain.
      and_then (decompress_data_with_fallback p plain allow)
        (λ text. parse_decompressed_with_fallback p text allow))

  unfoldable pub parse : MessageParser → Bytes → Result ParseError F
  parse p bytes = parse_with_fallback p bytes true

  unfoldable pub parse_with_format :
      MessageParser → Bytes → SerializationFormat → Result ParseError F
  parse_with_format p bytes format = and_then (decrypt_data_with_fallback p bytes true) (λ plain.
      and_then (decompress_data_with_fallback p plain true)
        (λ text. deserialize_by codec_error (serializer_of p format) text))

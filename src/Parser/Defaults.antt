-- ===== src/Parser/Defaults.antt =====
-- Proofs on the default registries of src/common/compression and src/common/serializer.
use flare_core.Base.{
  ℕ, ◌+◌, ◌≤◌, ◌≡◌, refl, Bool, true, false, Option, none, some, arith, Text, text_eq, text_beq,
  is_empty, length, Result, ok, err, Bool-cases, inl, inr, subst, ap, sym, ◌∙◌,
}
use flare_core.Base.Dict.{get, insert}
use flare_core.Connection.Info.{
  SerializationFormat, protobuf, json, CompressionAlgorithm, uncompressed, gzip, MessageParser,
}
use flare_core.Parser.{
  Bytes, Serializer, Encryptor, Codecs, encryption_name, is_uncompressed, serializer_of, serialize,
  parse_with_fallback,
}
use flare_core.Parser.Laws.{IsLawful, Reads, here, later, parse-serialize}
use flare_core.Parser.Registries.{
  gzip_compressor, has_gzip_magic, max_gzip_decompressed_len, algorithm_name, find_by_algorithm,
  get_compressor, detect_compressor, auto_decompress, CompressionRegistry,
  register_default_compressors, detects_json, register_default_formats, find_by_name,
  find_by_format, detect_formats, codecs_of,
}

-- The two formats on one frame: each reads back what it writes, what JSON writes begins as JSON and is
-- no protobuf, and what protobuf writes is not empty, and no JSON if it begins as that.
pub record IsReadBack {F : Type 0} (p j : Serializer F) (frame : F) : Type 0 where
  pub binary : (bytes : Bytes) → p.serialize frame ≡ ok bytes → p.deserialize bytes ≡ ok frame
  pub binary_full : (bytes : Bytes) → p.serialize frame ≡ ok bytes → is_empty bytes ≡ false
  pub binary_only :
      (bytes : Bytes)
      → p.serialize frame ≡ ok bytes
      → detects_json bytes ≡ true
      → (e : Text) × (j.deserialize bytes ≡ err e)
  pub text : (bytes : Bytes) → j.serialize frame ≡ ok bytes → j.deserialize bytes ≡ ok frame
  pub text_seen : (bytes : Bytes) → j.serialize frame ≡ ok bytes → detects_json bytes ≡ true
  pub text_only :
      (bytes : Bytes) → j.serialize frame ≡ ok bytes → (e : Text) × (p.deserialize bytes ≡ err e)
  -- Neither writes more than the decompression gives back.
  pub binary_fits :
      (bytes : Bytes) → p.serialize frame ≡ ok bytes → length bytes ≤ max_gzip_decompressed_len
  pub text_fits :
      (bytes : Bytes) → j.serialize frame ≡ ok bytes → length bytes ≤ max_gzip_decompressed_len

-- What gzip is: its output begins with its magic number, and gives back what was put in.
pub record IsGzip (encode : Bytes → Result Text Bytes) (decode : Bytes → ℕ → Result Text Bytes)
    : Type 0 where
  pub magic : (bytes small : Bytes) → encode bytes ≡ ok small → has_gzip_magic small ≡ true
  pub inverse :
      (bytes small : Bytes) (limit : ℕ)
      → encode bytes ≡ ok small
      → length bytes ≤ limit
      → decode small limit ≡ ok bytes

abbrev pub is_default : CompressionAlgorithm → Bool
is_default uncompressed = true
is_default gzip = true
is_default _ = false

module _ {F : Type 0} (p j : Serializer F) where
  binary-Reads :
      (json_first : Bool) (frame : F) (bytes : Bytes)
      → IsReadBack p j frame
      → p.serialize frame ≡ ok bytes
      → Reads frame bytes (detect_formats (register_default_formats json_first p j) bytes)
  unfolding detect_formats register_default_formats insert text_beq
  binary-Reads true frame bytes v h = elim (Bool-cases (detects_json bytes)) [
    | inl q ↦
        let (e, refused) = v.binary_only bytes h q in
        rw (q, v.binary_full bytes h) (later e refused (here (v.binary bytes h)))
    | inr q ↦ rw (q, v.binary_full bytes h) (here (v.binary bytes h))
  ]
  binary-Reads false frame bytes v h = rw (v.binary_full bytes h) (here (v.binary bytes h))

  text-Reads :
      (json_first : Bool) (frame : F) (bytes : Bytes)
      → IsReadBack p j frame
      → j.serialize frame ≡ ok bytes
      → Reads frame bytes (detect_formats (register_default_formats json_first p j) bytes)
  unfolding detect_formats register_default_formats insert text_beq
  text-Reads true frame bytes v h = rw (v.text_seen bytes h) (here (v.text bytes h))
  text-Reads false frame bytes v h =
      let (e, refused) = v.text_only bytes h in
      elim (Bool-cases (is_empty bytes)) [
        | inl q ↦ rw (q, v.text_seen bytes h) (here (v.text bytes h))
        | inr q ↦ rw (q, v.text_seen bytes h) (later e refused (here (v.text bytes h)))
      ]

  find_by_format-default :
      (json_first : Bool) (format : SerializationFormat)
      → find_by_format (register_default_formats json_first p j) format
        ≡ some (elim format [ protobuf ↦ p | json ↦ j ])
  unfolding find_by_format find_by_name register_default_formats insert get text_beq
  find_by_format-default true protobuf = refl
  find_by_format-default true json = refl
  find_by_format-default false protobuf = refl
  find_by_format-default false json = refl

  -- What either format writes is read, and fits.
  format-Reads :
      (json_first : Bool) (format : SerializationFormat) (frame : F) (s : Serializer F)
      (bytes : Bytes)
      → IsReadBack p j frame
      → find_by_format (register_default_formats json_first p j) format ≡ some s
      → s.serialize frame ≡ ok bytes
      → Reads frame bytes (detect_formats (register_default_formats json_first p j) bytes)
        × (length bytes ≤ max_gzip_decompressed_len)
  format-Reads json_first protobuf frame s bytes v at h =
      let same : s ≡ p = ap or_binary (sym at ∙ find_by_format-default json_first protobuf) in
      let wrote = subst (λ t. t.serialize frame ≡ ok bytes) same h in
      (binary-Reads json_first frame bytes v wrote, v.binary_fits bytes wrote)
    where
      or_binary : Option (Serializer F) → Serializer F
      or_binary none = p
      or_binary (some t) = t
  format-Reads json_first json frame s bytes v at h =
      let same : s ≡ j = ap or_text (sym at ∙ find_by_format-default json_first json) in
      let wrote = subst (λ t. t.serialize frame ≡ ok bytes) same h in
      (text-Reads json_first frame bytes v wrote, v.text_fits bytes wrote)
    where
      or_text : Option (Serializer F) → Serializer F
      or_text none = j
      or_text (some t) = t

module _ (encode : Bytes → Result Text Bytes) (decode : Bytes → ℕ → Result Text Bytes) where
  abbrev pub compressors : CompressionRegistry
  compressors = register_default_compressors (some (gzip_compressor encode decode))

  auto_decompress-compress :
      (a : CompressionAlgorithm) (bytes small : Bytes)
      → IsGzip encode decode
      → is_default a ≡ true
      → is_uncompressed a ≡ false
      → length bytes ≤ max_gzip_decompressed_len
      → (get_compressor compressors a).compress bytes ≡ ok small
      → auto_decompress compressors small ≡ ok (bytes, a)
  unfolding get_compressor find_by_algorithm algorithm_name auto_decompress detect_compressor
      register_default_compressors insert get text_beq
  auto_decompress-compress gzip bytes small v d n fits h =
      rw
        (
          v.magic bytes small h,
          v.inverse bytes small (max_gzip_decompressed_len + 1) h (omega arith),
        )
        (ground arith)
  auto_decompress-compress a bytes small v d n fits h = absurd (ground arith)

module _ {F : Type 0} (p j : Serializer F) (encode : Bytes → Result Text Bytes)
    (decode : Bytes → ℕ → Result Text Bytes) (find_encryptor : Text → Option Encryptor) where
  abbrev pub default_codecs : Bool → Codecs F
  default_codecs json_first =
      codecs_of (register_default_formats json_first p j) (compressors encode decode) find_encryptor

  default_codecs-IsLawful :
      (json_first : Bool) (parser : MessageParser) (frame : F)
      → parser.custom_format_name ≡ none
      → is_default parser.default_compression ≡ true
      → IsReadBack p j frame
      → IsGzip encode decode
      → ((k : Encryptor) (plain secret : Bytes)
          → find_encryptor (encryption_name parser.default_encryption) ≡ some k
          → k.encrypt plain ≡ ok secret
          → k.decrypt secret ≡ ok plain)
      → IsLawful (default_codecs json_first) parser frame
  default_codecs-IsLawful json_first parser frame plain d v z o = record {
    recognised = λ s bytes at h.
        (format-Reads p j json_first parser.default_format frame s bytes v (format_of s at) h).0;
    restored = λ s bytes small at wrote n h.
        let fits =
          (format-Reads p j json_first parser.default_format frame s bytes v (format_of s at)
            wrote).1 in
        auto_decompress-compress encode decode parser.default_compression bytes small z d n fits h;
    opened = o;
  }
    where
      format_of :
          (s : Serializer F)
          → serializer_of (default_codecs json_first) parser parser.default_format ≡ some s
          → find_by_format (register_default_formats json_first p j) parser.default_format ≡ some s
      format_of s at = ground (arith, plain)

  -- With the program's default registries, in either order of the two formats, a parser without a
  -- format of its own, whose compression is none or gzip, reads back, strictly and leniently,
  -- every frame that it serialises, if each format reads back what it writes of the frame in bytes
  -- that do not pass for the other, the binary form is not empty and the text begins as JSON,
  -- neither is longer than sixteen mebibytes, gzip restores what it compressed and begins with its
  -- magic number, and the encryptor opens what it sealed.
  pub parse-serialize_defaults :
      (json_first : Bool) (parser : MessageParser) (frame : F) (wire : Bytes) (allow : Bool)
      → parser.custom_format_name ≡ none
      → is_default parser.default_compression ≡ true
      → IsReadBack p j frame
      → IsGzip encode decode
      → ((k : Encryptor) (plain secret : Bytes)
          → find_encryptor (encryption_name parser.default_encryption) ≡ some k
          → k.encrypt plain ≡ ok secret
          → k.decrypt secret ≡ ok plain)
      → serialize (default_codecs json_first) parser frame ≡ ok wire
      → parse_with_fallback (default_codecs json_first) parser wire allow ≡ ok frame
  parse-serialize_defaults json_first parser frame wire allow plain d v z o h =
      parse-serialize (default_codecs json_first) parser frame wire allow
        (default_codecs-IsLawful json_first parser frame plain d v z o) h

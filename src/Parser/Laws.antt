-- ===== src/Parser/Laws.antt =====
-- Proofs on src/common/message/parser.rs, and the laws of the registries that they use.
use flare_core.Base.{
  ◌≡◌, ◌⊎◌, refl, subst, Bool, true, false, List, [], ◌∷◌, Option, none, some, arith, Text, Result,
  ok, err, Bool-cases, Option-cases, inl, inr,
}
use flare_core.Connection.Info.{
  uncompressed, unencrypted, MessageParser, pre_negotiation_parser, parser_new, json,
}
use flare_core.Parser.{
  Bytes, Serializer, Encryptor, Codecs, ParseError, encryption_name, is_unencrypted,
  is_uncompressed, lift, and_then, serializer_of, should_compress_payload, encrypt_data,
  compress_data, serialize_by, codec_error, serialize_with_format, serialize,
  decrypt_data_with_fallback, decompress_data_with_fallback, first_read,
  parse_decompressed_with_fallback, parse_with_fallback, parse, not_compressed, decrypt_failed,
}

-- Some serialiser of the list reads the frame, and none reads another one.
pub data Reads {F : Type 0} (frame : F) (bytes : Bytes) : List (Serializer F) → Type 0 where
  here :
      {s : Serializer F} {rest : List (Serializer F)}
      → s.deserialize bytes ≡ ok frame
      → Reads frame bytes (s ∷ rest)
  later :
      {s : Serializer F} {rest : List (Serializer F)} (e : Text)
      → s.deserialize bytes ≡ err e
      → Reads frame bytes rest
      → Reads frame bytes (s ∷ rest)

-- What the codecs that a parser uses do with one frame: of the serialisers that look at its bytes, the
-- first to read any reads the frame; what was compressed is detected as such and restored; what was
-- encrypted is decrypted. Parser/Registries shows when the program's own registries do so.
pub record IsLawful {F : Type 0} (c : Codecs F) (p : MessageParser) (frame : F) : Type 0 where
  pub recognised :
      (s : Serializer F) (bytes : Bytes)
      → serializer_of c p p.default_format ≡ some s
      → s.serialize frame ≡ ok bytes
      → Reads frame bytes (c.auto_detect bytes)
  pub restored :
      (s : Serializer F) (bytes small : Bytes)
      → serializer_of c p p.default_format ≡ some s
      → s.serialize frame ≡ ok bytes
      → is_uncompressed p.default_compression ≡ false
      → c.compress bytes p.default_compression ≡ ok small
      → c.auto_decompress small ≡ ok (bytes, p.default_compression)
  pub opened :
      (k : Encryptor) (plain secret : Bytes)
      → c.find_encryptor (encryption_name p.default_encryption) ≡ some k
      → k.encrypt plain ≡ ok secret
      → k.decrypt secret ≡ ok plain

Result-cases : {E A : Type 0} (r : Result E A) → ((e : E) × (r ≡ err e)) ⊎ ((a : A) × (r ≡ ok a))
Result-cases (err e) = inl (e, refl)
Result-cases (ok a) = inr (a, refl)

and_then-ok :
    {A B : Type 0} (r : Result ParseError A) (f : A → Result ParseError B) (b : B)
    → and_then r f ≡ ok b
    → (a : A) × (r ≡ ok a) × (f a ≡ ok b)
and_then-ok (ok a) f b h = (a, refl, h)
and_then-ok (err e) f b h = absurd (ground arith)

lift-ok :
    {A : Type 0} (f : Text → ParseError) (r : Result Text A) (a : A) → lift f r ≡ ok a → r ≡ ok a
lift-ok f (ok b) a h = ground arith
lift-ok f (err e) a h = absurd (ground arith)

module _ {F : Type 0} (c : Codecs F) where
  first_read-Reads :
      (frame : F) (bytes : Bytes) (s : List (Serializer F))
      → Reads frame bytes s
      → first_read c s bytes ≡ some frame
  first_read-Reads frame bytes [] r = elim r [ ]
  first_read-Reads frame bytes (s ∷ rest) (here h) = rw h refl
  first_read-Reads frame bytes (s ∷ rest) (later e h r) = rw h (first_read-Reads frame bytes rest r)

  parse-Reads :
      (p : MessageParser) (frame : F) (bytes : Bytes) (allow : Bool)
      → Reads frame bytes (c.auto_detect bytes)
      → parse_decompressed_with_fallback c p bytes allow ≡ ok frame
  unfolding parse_decompressed_with_fallback
  parse-Reads p frame bytes allow r = rw (first_read-Reads frame bytes (c.auto_detect bytes) r) refl

  decrypt-encrypt :
      (p : MessageParser) (frame : F) (plain secret : Bytes) (allow : Bool)
      → IsLawful c p frame
      → encrypt_data c plain p.default_encryption ≡ ok secret
      → decrypt_data_with_fallback c p secret allow ≡ ok plain
  unfolding encrypt_data decrypt_data_with_fallback
  decrypt-encrypt p frame plain secret allow v h =
      elim (Option-cases (c.find_encryptor (encryption_name p.default_encryption))) [
        | inl q ↦ ground arith
        | inr (k, q) ↦
            ground (arith, lift-ok codec_error (k.encrypt plain) secret, v.opened k plain secret q)
      ]

  decompress-compress :
      (p : MessageParser) (frame : F) (s : Serializer F) (bytes small : Bytes) (allow : Bool)
      → IsLawful c p frame
      → serializer_of c p p.default_format ≡ some s
      → s.serialize frame ≡ ok bytes
      → compress_data c bytes p.default_compression ≡ ok small
      → decompress_data_with_fallback c p small allow ≡ ok bytes
  unfolding compress_data should_compress_payload decompress_data_with_fallback
  decompress-compress p frame s bytes small allow v at wrote h =
      elim (Bool-cases (is_uncompressed p.default_compression)) [
        | inl q ↦ ground arith
        | inr q ↦ ground (
          arith,
          lift-ok codec_error (c.compress bytes p.default_compression) small,
          v.restored s bytes small at wrote q,
        )
      ]

  serialize_by-ok :
      (o : Option (Serializer F)) (frame : F) (bytes : Bytes)
      → serialize_by c o frame ≡ ok bytes
      → (s : Serializer F) × (o ≡ some s) × (s.serialize frame ≡ ok bytes)
  serialize_by-ok none frame bytes h = absurd (ground arith)
  serialize_by-ok (some s) frame bytes h =
      (s, refl, lift-ok codec_error (s.serialize frame) bytes h)

  -- If the codecs that a parser uses read back what they write of a frame, what the parser
  -- serialises of that frame the same parser reads back as the frame, strictly and leniently.
  pub parse-serialize :
      (p : MessageParser) (frame : F) (wire : Bytes) (allow : Bool)
      → IsLawful c p frame
      → serialize c p frame ≡ ok wire
      → parse_with_fallback c p wire allow ≡ ok frame
  unfolding serialize serialize_with_format parse_with_fallback
  parse-serialize p frame wire allow v h =
      let (bytes, made, rest) = and_then-ok _ _ wire h in
      let (small, shrunk, sealed) = and_then-ok _ _ wire rest in
      let (s, at, wrote) = serialize_by-ok (serializer_of c p p.default_format) frame bytes made in
      rw
        (
          decrypt-encrypt p frame small wire allow v sealed,
          decompress-compress p frame s bytes small allow v at wrote shrunk,
        )
        (parse-Reads p frame bytes allow (v.recognised s bytes at wrote))

  pre_negotiation-plain :
      (frame : F) (wire : Bytes)
      → IsLawful c pre_negotiation_parser frame
      → serialize c pre_negotiation_parser frame ≡ ok wire
      → Reads frame wire (c.auto_detect wire)
  unfolding serialize serialize_with_format pre_negotiation_parser parser_new compress_data
      should_compress_payload encrypt_data
  pre_negotiation-plain frame wire v h =
      let (bytes, made, rest) = and_then-ok _ _ wire h in
      let (s, at, wrote) = serialize_by-ok (c.get_serializer json) frame bytes made in
      let same : bytes ≡ wire = ground arith in
      subst (λ x. Reads frame x (c.auto_detect x)) same (v.recognised s bytes at wrote)

  decrypt-plain :
      (p : MessageParser) (k : Encryptor) (wire : Bytes) (e : Text)
      → c.find_encryptor (encryption_name p.default_encryption) ≡ some k
      → k.decrypt wire ≡ err e
      → decrypt_data_with_fallback c p wire true ≡ ok wire
  unfolding decrypt_data_with_fallback
  decrypt-plain p k wire e q d = ground arith

  decompress-plain :
      (p : MessageParser) (wire : Bytes)
      → c.auto_decompress wire ≡ ok (wire, uncompressed)
      → decompress_data_with_fallback c p wire true ≡ ok wire
  unfolding decompress_data_with_fallback
  decompress-plain p wire h = ground arith

  -- If the codecs read back what they write of a frame before the negotiation, the frame written then
  -- is still read by the negotiated parser if its encryptor is registered and refuses the bytes and no
  -- compression is detected in them.
  pub parse-pre_negotiation :
      (p : MessageParser) (k : Encryptor) (frame : F) (wire : Bytes) (e : Text)
      → IsLawful c pre_negotiation_parser frame
      → serialize c pre_negotiation_parser frame ≡ ok wire
      → c.find_encryptor (encryption_name p.default_encryption) ≡ some k
      → k.decrypt wire ≡ err e
      → c.auto_decompress wire ≡ ok (wire, uncompressed)
      → parse c p wire ≡ ok frame
  unfolding parse parse_with_fallback
  parse-pre_negotiation p k frame wire e v h q d raw =
      rw (decrypt-plain p k wire e q d, decompress-plain p wire raw)
        (parse-Reads p frame wire true (pre_negotiation-plain frame wire v h))

-- A strict reader whose connection is compressed refuses data in which no compression is detected.
pub parse-uncompressed :
    {F : Type 0} (c : Codecs F) (p : MessageParser) (wire plain : Bytes)
    → p.default_encryption ≡ unencrypted
    → is_uncompressed p.default_compression ≡ false
    → c.auto_decompress wire ≡ ok (plain, uncompressed)
    → parse_with_fallback c p wire false ≡ err not_compressed
unfolding parse_with_fallback decrypt_data_with_fallback decompress_data_with_fallback
parse-uncompressed c p wire plain n h q = ground arith

-- A strict reader whose connection is encrypted refuses data that its encryptor does not open.
pub parse-unopened :
    {F : Type 0} (c : Codecs F) (p : MessageParser) (k : Encryptor) (wire : Bytes) (e : Text)
    → is_unencrypted p.default_encryption ≡ false
    → c.find_encryptor (encryption_name p.default_encryption) ≡ some k
    → k.decrypt wire ≡ err e
    → parse_with_fallback c p wire false ≡ err (decrypt_failed e)
unfolding parse_with_fallback decrypt_data_with_fallback
parse-unopened c p k wire e n q h = ground arith

-- ===== src/Parser/Tests.antt =====
-- The parser and the gate before it on concrete inputs.
use flare_core.Base.{
  ℕ, ◌+◌, ◌≤◌, ◌≡◌, is_empty, length, refl, true, false, [], ◌∷◌, Option, none, some, arith, Text,
  text_eq, ◌==◌, nat_eq, if◌then◌else◌, Result, ok, err, sym, subst, ap, ◌∙◌, Option-cases, inl,
  inr,
}
use flare_core.Base.Chars.{codes}
use flare_core.Base.Dict.{get}
use flare_core.Connection.Info.{
  protobuf, json, gzip, aes256_gcm, uncompressed, MessageParser, parser_new, pre_negotiation_parser,
  ConnectionInfo, info_new, SerializationFormat,
}
use flare_core.Parser.{
  Bytes, Serializer, Encryptor, Codecs, parse, serialize, decrypt_data_with_fallback,
  decompress_data_with_fallback, parse_decompressed_with_fallback, serialize_with_format,
  compress_data, should_compress_payload, encrypt_data, parse_with_fallback, serializer_of,
}
use flare_core.Pipeline.{
  MessagePipeline, World, Application, process_frame_with_parser, process_raw, update_parser,
}
use flare_core.Pipeline.Laws.{process_raw-reply}
use flare_core.Parser.Defaults.{IsReadBack, IsGzip, default_codecs, parse-serialize_defaults}
use flare_core.Parser.Registries.{
  detects_json, max_gzip_decompressed_len, has_gzip_magic, get_compressor, find_by_algorithm,
  algorithm_name, register_default_compressors, register_default_formats, find_by_format,
  find_by_name,
}
use flare_core.Parser.Laws.{IsLawful, Reads, here, parse-serialize}

-- Frames are numbers, one is one byte; the encryptor puts a mark before the bytes, and nothing is
-- compressed.
abbrev serializer : Serializer ℕ
serializer = record {
  serialize = λ n. ok (n ∷ []);
  deserialize = λ bytes. elim bytes [ [] ↦ err [] | n ∷ rest ↦ ok n ];
}

abbrev open_mark : Bytes → Result Text Bytes
open_mark [] = err []
open_mark (b ∷ bytes) = if b == 77 then ok bytes else err []

abbrev encryptor : Encryptor
encryptor = record { encrypt = λ bytes. ok (77 ∷ bytes); decrypt = open_mark }

abbrev codecs : Codecs ℕ
codecs = record {
  get_serializer = λ f. some serializer;
  get_serializer_by_name = λ name. none;
  auto_detect = λ bytes. serializer ∷ [];
  compress = λ bytes a. err [];
  auto_decompress = λ bytes. ok (bytes, uncompressed);
  find_encryptor = λ name. some encryptor;
}

abbrev or_serializer : Option (Serializer ℕ) → Serializer ℕ
or_serializer none = serializer
or_serializer (some s) = s

only_serializer :
    (p : MessageParser) (format : SerializationFormat)
    → or_serializer (serializer_of codecs p format) ≡ serializer
only_serializer p format = elim (Option-cases p.custom_format_name) [
  | inl q ↦ rw q refl
  | inr (name, q) ↦ rw q refl
]

serializer-recognised :
    (n : ℕ) (bytes : Bytes) → serializer.serialize n ≡ ok bytes → Reads n bytes (serializer ∷ [])
serializer-recognised n bytes h =
    let same : n ∷ [] ≡ bytes = ground arith in
    subst (λ b. Reads n b (serializer ∷ [])) same (here refl)

abbrev or_encryptor : Option Encryptor → Encryptor
or_encryptor none = encryptor
or_encryptor (some k) = k

encryptor-opened :
    (plain secret : Bytes)
    → encryptor.encrypt plain ≡ ok secret
    → encryptor.decrypt secret ≡ ok plain
encryptor-opened plain secret h =
    let same : 77 ∷ plain ≡ secret = ground arith in
    subst (λ b. encryptor.decrypt b ≡ ok plain) same refl

codecs-IsLawful : (p : MessageParser) (frame : ℕ) → IsLawful codecs p frame
codecs-IsLawful p frame = record {
  recognised = λ s bytes at h.
      let same = sym (only_serializer p p.default_format) ∙ ap or_serializer at in
      serializer-recognised frame bytes (subst (λ t. t.serialize frame ≡ ok bytes) (sym same) h);
  restored = λ s bytes small at wrote n h. ground arith;
  opened = λ k plain secret at h.
      let same : encryptor ≡ k = ap or_encryptor at in
      subst (λ t. t.decrypt secret ≡ ok plain) same
        (encryptor-opened plain secret (subst (λ t. t.encrypt plain ≡ ok secret) (sym same) h));
}

abbrev sealed : MessageParser
sealed = parser_new protobuf uncompressed aes256_gcm

sealed-wire : serialize codecs sealed 5 ≡ ok (77 ∷ 5 ∷ [])
unfolding serialize serialize_with_format compress_data encrypt_data should_compress_payload
    parser_new
sealed-wire = refl

plain-wire : serialize codecs pre_negotiation_parser 5 ≡ ok (5 ∷ [])
unfolding serialize serialize_with_format compress_data encrypt_data should_compress_payload
    pre_negotiation_parser parser_new
plain-wire = refl

parse-serialize_example : parse_with_fallback codecs sealed (77 ∷ 5 ∷ []) false ≡ ok 5
parse-serialize_example =
    parse-serialize codecs sealed 5 (77 ∷ 5 ∷ []) false (codecs-IsLawful sealed 5) sealed-wire

abbrev is_ping : ℕ → Option ℕ
is_ping n = if n == 5 then some 4 else none

abbrev guest : ConnectionInfo
guest = info_new 1 100 (codes "c1") true

-- The processor answers with the next number, and sets another parser meanwhile.
abbrev successor : Application ℕ ℕ
successor = record {
  before = λ ptr ctx r. (r, ok none);
  after = λ ptr ctx response r. (r, ok none);
  process = λ ptr ctx r.
      let changed : MessagePipeline ℕ = update_parser r.world.pipeline pre_negotiation_parser in
      let w : World ℕ ℕ = record (r.world) { pipeline = changed } in
      (record r { world = w }, ok (some (ctx.frame + 1)));
  wall_clock_ms = λ app. app;
}

abbrev sealed_world : World ℕ ℕ
sealed_world = record {
  pipeline = record { middlewares = []; processors = 1 ∷ []; parser = sealed };
  app = 0;
}

abbrev changed_world : World ℕ ℕ
changed_world = record sealed_world {
  pipeline = update_parser sealed_world.pipeline pre_negotiation_parser;
}

sealed-reply :
    process_raw successor codecs (77 ∷ 5 ∷ []) none sealed_world
    ≡ (changed_world, ok (some (77 ∷ 6 ∷ [])))
unfolding process_raw process_frame_with_parser update_parser parse parse_with_fallback
    decrypt_data_with_fallback decompress_data_with_fallback parse_decompressed_with_fallback
    serialize serialize_with_format compress_data encrypt_data should_compress_payload parser_new
sealed-reply = refl

process_raw-reply_example :
    (frame : ℕ) × (parse codecs sealed (77 ∷ 5 ∷ []) ≡ ok frame)
    × (response : ℕ) × (process_frame_with_parser successor frame none sealed sealed_world
        ≡ (changed_world, ok (some response)))
    × (parse_with_fallback codecs sealed (77 ∷ 6 ∷ []) false ≡ ok response)
process_raw-reply_example =
    process_raw-reply successor codecs sealed_world changed_world none (77 ∷ 5 ∷ []) (77 ∷ 6 ∷ [])
      false (codecs-IsLawful sealed) sealed-reply

-- One byte is the binary form, and JSON puts a brace before it; gzip puts its magic number before.
abbrev read_binary : Bytes → Result Text ℕ
read_binary (n ∷ []) = ok n
read_binary _ = err []

abbrev binary : Serializer ℕ
binary = record { serialize = λ n. ok (n ∷ []); deserialize = read_binary }

abbrev read_text : Bytes → Result Text ℕ
read_text (b ∷ (n ∷ [])) = if b == 123 then ok n else err []
read_text _ = err []

abbrev textual : Serializer ℕ
textual = record { serialize = λ n. ok (123 ∷ (n ∷ [])); deserialize = read_text }

abbrev encode : Bytes → Result Text Bytes
encode bytes = ok (31 ∷ (139 ∷ bytes))

abbrev decode : Bytes → ℕ → Result Text Bytes
decode (b ∷ (c ∷ bytes)) limit = ok bytes
decode _ limit = err []

abbrev or_nothing : Result Text Bytes → Bytes
or_nothing (ok bytes) = bytes
or_nothing (err e) = []

-- What holds of the bytes made holds of them by any name.
made :
    (P : Bytes → Type 0) {from to : Bytes}
    → ◌≡◌ {A = Result Text Bytes} (ok from) (ok to)
    → P from
    → P to
made P h = subst P (ap or_nothing h)

formats-IsReadBack : (n : ℕ) → IsReadBack binary textual n
formats-IsReadBack n = record {
  binary = λ bytes h. made (λ x. binary.deserialize x ≡ ok n) h refl;
  binary_full = λ bytes h. made (λ x. is_empty x ≡ false) h refl;
  binary_only = λ bytes h d. made (λ x. (e : Text) × (textual.deserialize x ≡ err e)) h ([], refl);
  text = λ bytes h. made (λ x. textual.deserialize x ≡ ok n) h refl;
  text_seen = λ bytes h. made (λ x. detects_json x ≡ true) h refl;
  text_only = λ bytes h. made (λ x. (e : Text) × (binary.deserialize x ≡ err e)) h ([], refl);
  binary_fits = λ bytes h. made (λ x. length x ≤ max_gzip_decompressed_len) h (omega arith);
  text_fits = λ bytes h. made (λ x. length x ≤ max_gzip_decompressed_len) h (omega arith);
}

encode-IsGzip : IsGzip encode decode
encode-IsGzip = record {
  magic = λ bytes small h. made (λ x. has_gzip_magic x ≡ true) h refl;
  inverse = λ bytes small limit h fits. made (λ x. decode x limit ≡ ok bytes) h refl;
}

abbrev zipped : MessageParser
zipped = parser_new json gzip aes256_gcm

zipped-wire :
    serialize (default_codecs binary textual encode decode (λ name. some encryptor) true) zipped 5
    ≡ ok (77 ∷ 31 ∷ 139 ∷ 123 ∷ 5 ∷ [])
unfolding serialize serialize_with_format compress_data encrypt_data should_compress_payload
    parser_new find_by_format find_by_name get register_default_formats get_compressor
    find_by_algorithm register_default_compressors algorithm_name
zipped-wire = refl

parse-serialize_defaults_example :
    parse_with_fallback
      (default_codecs binary textual encode decode (λ name. some encryptor) true)
      zipped
      (77 ∷ 31 ∷ 139 ∷ 123 ∷ 5 ∷ [])
      false
    ≡ ok 5
unfolding parser_new
parse-serialize_defaults_example =
    parse-serialize_defaults binary textual encode decode (λ name. some encryptor) true zipped 5
      (77 ∷ 31 ∷ 139 ∷ 123 ∷ 5 ∷ []) false refl refl (formats-IsReadBack 5) encode-IsGzip
      (λ k plain secret at h.
        let same : encryptor ≡ k = ap or_encryptor at in
        subst (λ t. t.decrypt secret ≡ ok plain) same
          (encryptor-opened plain secret (subst (λ t. t.encrypt plain ≡ ok secret) (sym same) h)))
      zipped-wire

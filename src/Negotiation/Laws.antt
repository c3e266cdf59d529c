-- ===== src/Negotiation/Laws.antt =====
-- Proofs on src/server/connection/negotiation.rs and `determine_negotiation_result` of
-- src/server/transports/server_core.rs.
use flare_core.Base.{
  ℕ, ◌≡◌, refl, ◌∙◌, subst, Bool, true, false, not, ◌&&◌, ◌||◌, List, [], ◌∷◌, Option, none, some,
  arith, Text, text_eq, text_beq_iff, ◌==◌, contains, contains-append, Distinct, Distinct-append,
  if◌then◌else◌, map, Bool-cases, inl, inr,
}
use flare_core.Base.Chars.{codes}
use flare_core.Base.Dict.{get, get-insert}
use mathlib.Core.Option.{some-injective}
use flare_core.Device.Platform.{
  DevicePlatform, DeviceInfo, new, with_model, with_app_version, with_system_version, with_metadata,
}
use flare_core.Connection.Info.{
  CompressionAlgorithm, uncompressed, SerializationFormat, EncryptionAlgorithm,
}
use flare_core.Kick.{from_utf8}
use flare_core.Negotiation.Algorithms.{
  compression_eq, compression_beq_iff, compression_as_str, compression_from_str,
}
use flare_core.Negotiation.Connect.{
  push_new, push_all, and_then, NegotiationResult, Metadata, metadata_string,
  metadata_accept_compression, names_in, accepted_in, parse_accepted_compressions,
  is_reserved_device_metadata_key, custom_entry, custom_metadata, platform_given,
  metadata_device_id, metadata_platform, metadata_model, metadata_app_version,
  metadata_system_version, parse_device_info, given,
}
use flare_core.Negotiation.Settle.{ServerDefaults, determine_negotiation_result, create_connect_ack}

push_new-contains :
    (xs : List CompressionAlgorithm) (a b : CompressionAlgorithm)
    → contains (push_new xs a) b ≡ (contains xs b || (not (a == uncompressed) && (a == b)))
push_new-contains xs a b = ground (arith, contains-append xs (a ∷ []) b, compression_beq_iff a b)

push_new-Distinct :
    (xs : List CompressionAlgorithm) (a : CompressionAlgorithm)
    → Distinct xs
    → Distinct (push_new xs a)
push_new-Distinct xs a d = elim (Bool-cases ((a == uncompressed) || contains xs a)) [
  | inl old ↦ rw old d
  | inr new_one ↦
      rw new_one
        (Distinct-append xs (a ∷ []) d (refl, tt) (λ k h. ground (arith, compression_beq_iff a k)))
]

push_all-contains :
    (xs ys : List CompressionAlgorithm) (b : CompressionAlgorithm)
    → contains (push_all xs ys) b ≡ (contains xs b || (not (b == uncompressed) && contains ys b))
push_all-contains xs [] b = ground arith
push_all-contains xs (y ∷ ys) b = ground (
  arith,
  push_all-contains (push_new xs y) ys b,
  push_new-contains xs y b,
  compression_beq_iff y b,
)

push_all-Distinct : (xs ys : List CompressionAlgorithm) → Distinct xs → Distinct (push_all xs ys)
push_all-Distinct xs [] d = d
push_all-Distinct xs (y ∷ ys) d = push_all-Distinct (push_new xs y) ys (push_new-Distinct xs y d)

-- What a text of names asks for.
abbrev pub named_in : (Text → Text) → Option Text → List CompressionAlgorithm
named_in to_lowercase none = []
named_in to_lowercase (some s) =
    map (λ name. compression_from_str (to_lowercase name)) (names_in to_lowercase s)

accepted_in_sound :
    (to_lowercase : Text → Text) (o : Option Text)
    → Distinct (accepted_in to_lowercase o)
      × ((a : CompressionAlgorithm)
          → contains (accepted_in to_lowercase o) a
            ≡ (not (a == uncompressed) && contains (named_in to_lowercase o) a))
accepted_in_sound to_lowercase none = (tt, λ a. ground arith)
accepted_in_sound to_lowercase (some s) = (
  push_all-Distinct [] (named_in to_lowercase (some s)) tt,
  λ a. ground (arith, push_all-contains [] (named_in to_lowercase (some s)) a),
)

-- The compressions that a client accepts are those its metadata names, but for none at all, and
-- each stands there once.
parse_accepted_compressions-Distinct :
    (to_lowercase : Text → Text) (metadata : Metadata)
    → Distinct (parse_accepted_compressions to_lowercase metadata)
      × ((a : CompressionAlgorithm)
          → contains (parse_accepted_compressions to_lowercase metadata) a ≡ (
              not (a == uncompressed)
              && contains
                  (named_in to_lowercase (metadata_string metadata metadata_accept_compression))
                  a))
unfolding parse_accepted_compressions
parse_accepted_compressions-Distinct to_lowercase metadata =
    accepted_in_sound to_lowercase (metadata_string metadata metadata_accept_compression)

-- What the client said it can undo.
abbrev pub is_decodable : NegotiationResult → CompressionAlgorithm → Bool
is_decodable n a = (a == uncompressed) || (a == n.compression) || contains n.accepted_compressions a

-- Whatever the defaults of the server, the compression it settles on is none, or the one that the
-- client asked for, or one that the client declared.
pub determine_negotiation_result-is_decodable :
    (d : ServerDefaults) (n : NegotiationResult)
    → is_decodable n (determine_negotiation_result d n).1 ≡ true
unfolding determine_negotiation_result
determine_negotiation_result-is_decodable d n = ground (
  arith,
  compression_beq_iff uncompressed uncompressed,
  compression_beq_iff n.compression n.compression,
)

as_str-from_str :
    (s : Text)
    → compression_from_str (compression_as_str (compression_from_str s)) ≡ compression_from_str s
unfolding compression_from_str compression_as_str
as_str-from_str s = ground (
  arith,
  text_beq_iff s (codes "none"),
  text_beq_iff s (codes "gzip"),
  text_beq_iff s (codes "zstd"),
)

none_named : compression_from_str (codes "none") ≡ uncompressed
unfolding compression_from_str
none_named = refl

-- An acknowledgement names the compression that was settled, as the client reads it, if it is
-- registered, and none otherwise.
pub create_connect_ack-compression :
    (compressors encryptors : Text → Bool) (format : SerializationFormat) (name : Text)
    (encryption : EncryptionAlgorithm) (extra : Option Metadata)
    → let a = compression_from_str name in
      compression_from_str
        (create_connect_ack compressors encryptors format a encryption extra).compression
      ≡ (if compressors (compression_as_str a) then a else uncompressed)
unfolding create_connect_ack
create_connect_ack-compression compressors encryptors format name encryption extra =
    elim (Bool-cases (compressors (compression_as_str (compression_from_str name)))) [
      | inl known ↦ rw known (as_str-from_str name)
      | inr unknown ↦ rw unknown none_named
    ]

given-with_metadata :
    (o : Option Text) (key wanted : Text) (d : DeviceInfo)
    → (key == wanted) ≡ false
    → get wanted (given o (λ x s. with_metadata x key s) d).metadata ≡ get wanted d.metadata
unfolding with_metadata
given-with_metadata none key wanted d n = refl
given-with_metadata (some s) key wanted d n = ground (arith, get-insert key wanted s d.metadata)

custom_entry-reserved :
    (reserved : Bool) (key wanted : Text) (value : List ℕ) (d : DeviceInfo)
    → is_reserved_device_metadata_key key ≡ reserved
    → is_reserved_device_metadata_key wanted ≡ true
    → get wanted (custom_entry reserved key value d).metadata ≡ get wanted d.metadata
custom_entry-reserved true key wanted value d e r = refl
custom_entry-reserved false key wanted value d e r =
    given-with_metadata (from_utf8 value) key wanted d (ground (arith, text_beq_iff key wanted))

custom_metadata-reserved :
    (metadata : Metadata) (wanted : Text) (d : DeviceInfo)
    → is_reserved_device_metadata_key wanted ≡ true
    → get wanted (custom_metadata metadata d).metadata ≡ get wanted d.metadata
unfolding custom_metadata
custom_metadata-reserved [] wanted d r = refl
custom_metadata-reserved ((key, value) ∷ rest) wanted d r =
    custom_metadata-reserved rest wanted _ r ∙ custom_entry-reserved _ key wanted value d refl r

-- A described device, before the rest of the metadata is added.
given-new :
    (id : Text) (platform : DevicePlatform) (model app system : Option Text) (key : Text)
    → get key
        (given system with_system_version
          (given app with_app_version (given model with_model (new id platform)))).metadata
      ≡ none
unfolding new with_model with_app_version with_system_version get
given-new id platform none none none key = refl
given-new id platform none none (some s) key = refl
given-new id platform none (some a) none key = refl
given-new id platform none (some a) (some s) key = refl
given-new id platform (some m) none none key = refl
given-new id platform (some m) none (some s) key = refl
given-new id platform (some m) (some a) none key = refl
given-new id platform (some m) (some a) (some s) key = refl

described :
    (o : Option Text) (f : Text → DeviceInfo) (info : DeviceInfo) (key : Text)
    → ((id : Text) → get key (f id).metadata ≡ none)
    → and_then o (λ id. some (f id)) ≡ some info
    → get key info.metadata ≡ none
described none f info key h e = absurd cc
described (some id) f info key h e =
    subst (λ x. get key x.metadata ≡ none) (some-injective _ _ e) (h id)

-- The metadata of a device that a client describes has none of the keys that the negotiation
-- itself reads.
pub parse_device_info-reserved :
    (metadata : Metadata) (info : DeviceInfo) (key : Text)
    → parse_device_info metadata ≡ some info
    → is_reserved_device_metadata_key key ≡ true
    → get key info.metadata ≡ none
unfolding parse_device_info
parse_device_info-reserved metadata info key e r =
    let platform = platform_given (metadata_string metadata metadata_platform) in
    let model = metadata_string metadata metadata_model in
    let app = metadata_string metadata metadata_app_version in
    let system = metadata_string metadata metadata_system_version in
    described (metadata_string metadata metadata_device_id) _ info key
      (λ id. custom_metadata-reserved metadata key _ r ∙ given-new id platform model app system key)
      e

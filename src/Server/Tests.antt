-- ===== src/Server/Tests.antt =====
-- The set-up of connections on concrete inputs: a token names its user.
mod Events
use flare_core.Base.{
  ℕ, ◌≡◌, refl, sym, ap, ◌∙◌, subst, Bool, true, false, ◌&&◌, List, [], ◌∷◌, ◌++◌, Option, none,
  some, arith, Text, text_eq, nat_eq, ◌==◌, is_empty, if◌then◌else◌, Result, ok, err, Option-cases,
  Bool-cases, inl, inr, length, nat_beq_iff, text_beq, text_beq_iff, ◌↔◌,
}
use flare_core.Base.Chars.{codes}
use flare_core.Base.Dict.{insert}
use flare_core.Client.Session.{ClientCore, connect_rejected, record_connect_rejection}
use flare_core.Client.{mutex, state_new}
use flare_core.Server.Connect.{authenticate_connection, settled_parser}
use flare_core.Server.Connect.Entries.{IsQuiet, entry_in}
use flare_core.Server.Connect.Accepted.{IsAccepted, handle_connect_complete-IsAccepted}
use flare_core.Connection.Shards.{find, write}
use flare_core.Server.Connect.Identity.{IsVouched, authenticate_connection-IsVouched}
use flare_core.Server.Connect.Refusals.{is_refusal, handle_connect_complete-refused}
use flare_core.Connection.Info.{
  owner, protobuf, uncompressed, unencrypted, MessageParser, SerializationFormat,
  pre_negotiation_parser,
}
use flare_core.Connection.Manager.State.{
  reserve_connection_slot, ConnectionEntry, Hashers, ConnectionManager, with_write_queue_limits,
}
use flare_core.Connection.Manager.Lifecycle.{
  entry_new, after_reserve, insert_reserved, add_connection_with_limit,
}
use flare_core.Connection.Manager.Valid.{IsValid, with_write_queue_limits-IsValid}
use flare_core.Connection.Manager.Adding.{add_connection-IsValid}
use flare_core.Device.Registry.Consistency.{init-IsConsistent}
use flare_core.Device.Registry.Defs.{init}
use flare_core.Errors.{FlareError, code, reason, authentication_failed}
use flare_core.Errors.Codes as Codes
use flare_core.Errors.Codes.{from_u32, as_u32, from_u32_iff}
use flare_core.Kick.{SystemCommand}
use flare_core.Negotiation.Connect.{Metadata, NegotiationResult, parse_connect_message}
use flare_core.Negotiation.Settle.{is_typed_reason, ServerDefaults, ConnectionIdentity}
use flare_core.Parser.{
  Bytes, Codecs, Serializer, serializer_of, compress_data, encrypt_data, serialize,
  parse_with_fallback,
}
use flare_core.Device.Strategy.{mobile_exclusive}
use flare_core.Device.Platform.{DeviceInfo}
use flare_core.Server.Connect.Completion.{
  send_ack, acknowledged, notice, noticed, connect_rejection, handle_connect_complete,
}
use mathlib.Core.Option.{some_inj, none-ne-some}
use flare_core.Parser.Laws.{IsLawful, Reads, here}
use flare_core.Server.Authentication.{AuthResult, success, identity_of, extract_token_from_frame}
use flare_core.Server.Frames.{
  frame_with_system_command, system_command, Frame, Command, system, payload, notification, custom,
  connect_type, error_type,
}
use flare_core.Server.World.{World, ServerCore, Library, Environment}
use flare_core.Server.Connect.Tables.{IsSound}
use flare_core.Server.Connect.Sound.{IsKeeping}

from_u32_iff_example :
    (from_u32 1000 ≡ some Codes.connection_failed) ↔ (as_u32 Codes.connection_failed ≡ 1000)
from_u32_iff_example = from_u32_iff 1000 Codes.connection_failed

-- A serialiser of the refusals whose message is their code: the bytes are the code.
abbrev refusal : Text → Frame
refusal c = record {
  message_id = [];
  command = some (
      system (record { type = error_type; message = c; metadata = (codes "code", c) ∷ [] }) protobuf
        [] []);
}

abbrev encode_system : Text → ℕ → Text → Metadata → Result Text Bytes
encode_system id type message ((k, v) ∷ []) =
    if id == [] && type == error_type && message == v && k == codes "code" then ok v else err []
encode_system id type message _ = err []

abbrev encode_command : Text → Option Command → Result Text Bytes
encode_command id (some (system c protobuf [] [])) = encode_system id c.type c.message c.metadata
encode_command id _ = err []

abbrev serializer : Serializer Frame
serializer = record {
  serialize = λ frame. encode_command frame.message_id frame.command;
  deserialize = λ bytes. ok (refusal bytes);
}

abbrev codecs : Codecs Frame
codecs = record {
  get_serializer = λ f. some serializer;
  get_serializer_by_name = λ name. none;
  auto_detect = λ bytes. serializer ∷ [];
  compress = λ bytes a. err [];
  auto_decompress = λ bytes. ok (bytes, uncompressed);
  find_encryptor = λ name. none;
}

encode_system-refusal :
    (id : Text) (type : ℕ) (message : Text) (m : Metadata) (bytes : Bytes)
    → encode_system id type message m ≡ ok bytes
    → refusal bytes ≡ record {
      message_id = id;
      command =
          some (system (record { type = type; message = message; metadata = m }) protobuf [] []);
    }
encode_system-refusal id type message ((k, v) ∷ []) bytes h = ground (
  arith,
  text_beq_iff id [],
  nat_beq_iff type error_type,
  text_beq_iff message v,
  text_beq_iff k (codes "code"),
)
encode_system-refusal id type message _ bytes h = absurd (ground arith)

encode_command-refusal :
    (id : Text) (c : Option Command) (bytes : Bytes)
    → encode_command id c ≡ ok bytes
    → refusal bytes ≡ record { message_id = id; command = c }
encode_command-refusal id (some (system c protobuf [] [])) bytes h =
    encode_system-refusal id c.type c.message c.metadata bytes h
encode_command-refusal id _ bytes h = absurd (ground arith)

abbrev or_serializer : Option (Serializer Frame) → Serializer Frame
or_serializer none = serializer
or_serializer (some s) = s

only_serializer :
    (p : MessageParser) (format : SerializationFormat)
    → or_serializer (serializer_of codecs p format) ≡ serializer
only_serializer p format = elim (Option-cases p.custom_format_name) [
  | inl q ↦ rw q refl
  | inr (name, q) ↦ rw q refl
]

codecs-IsLawful : (p : MessageParser) (frame : Frame) → IsLawful codecs p frame
codecs-IsLawful p frame = record {
  recognised = λ s bytes at h.
      let same = sym (only_serializer p p.default_format) ∙ ap or_serializer at in
      let made = subst (λ t. t.serialize frame ≡ ok bytes) (sym same) h in
      here (ap ok (encode_command-refusal frame.message_id frame.command bytes made));
  restored = λ s bytes small at wrote n h. absurd (ground arith);
  opened = λ k plain secret at h. absurd (ground arith);
}

-- A serialiser of everything, to nothing.
abbrev silent : Codecs Frame
silent = record codecs {
  get_serializer = λ f. some (record { serialize = λ frame. ok []; deserialize = λ bytes. err [] });
}

abbrev library : Codecs Frame → Library
library c = record {
  hashers = record { hash_id = length; hash_owner = λ o. length o.user_id };
  codecs = c;
  compressors = λ name. false;
  encryptors = λ name. false;
  to_lowercase = λ text. text;
  debug_platform = λ platform. [];
  to_json = λ texts. [];
  codec_failure = λ e. authentication_failed [];
}

-- The application's state is what was sent, last first.
abbrev App : Type 0
App = List (ℕ × Bytes)

abbrev environment : Environment App
environment = record {
  authenticator = some (λ token id info metadata w. (w, ok (success (some token))));
  on_connect = some (λ id w. (w, ok tt));
  send = λ conn bytes w. (record w { app = (conn, bytes) ∷ w.app }, ok tt);
  sleep = λ w. w;
  build_pipeline = λ w. w;
  unix = λ w. 12;
  generate_message_id = λ w. [];
}

abbrev core : ServerCore
core = record {
  auth_enabled = true;
  device_manager = some mobile_exclusive;
  defaults = record {
    default_serialization_format = protobuf;
    default_compression = uncompressed;
    default_encryption = unencrypted;
  };
  has_pipeline = true;
}

abbrev c1 : Text
c1 = codes "c1"

abbrev accepted : ConnectionManager
accepted =
    (add_connection_with_limit (library codecs).hashers (with_write_queue_limits 1 256 1024) 5 100
      c1 7 8 none true 9).0

abbrev world : World App
world = record {
  server = record { devices = init; connections = accepted; kicks = [] };
  pipeline_cache = [];
  pipelines_made = 0;
  app = [];
}

accepted-IsValid : IsValid (library codecs).hashers accepted
accepted-IsValid =
    add_connection-IsValid (library codecs).hashers (with_write_queue_limits 1 256 1024) 5 100 c1 7
      8 none true 9 (with_write_queue_limits-IsValid (library codecs).hashers 1 256 1024)
      (omega arith)

world-IsSound : IsSound (library codecs).hashers world
world-IsSound = record { valid = accepted-IsValid; consistent = init-IsConsistent }

abbrev connect : Metadata → Frame
connect metadata = record {
  message_id = [];
  command =
      some
        (system (record { type = connect_type; message = []; metadata = metadata }) protobuf [] []);
}

abbrev with_token : Frame
with_token = connect ((codes "token", codes "ann") ∷ [])

abbrev Authenticate : Type 0
Authenticate =
    Text
    → Text
    → Option DeviceInfo
    → Option Metadata
    → World App
    → World App × Result FlareError AuthResult

environment-IsKeeping : IsKeeping (library codecs).hashers environment
environment-IsKeeping = record {
  authenticates = λ authenticate token id info metadata q w v.
      let same = some_inj.0 q in
      subst (λ (f : Authenticate). IsSound (library codecs).hashers (f token id info metadata w).0)
        same v;
  connects = λ on_connect id q w v.
      subst
        (λ (f : Text → World App → World App × Result FlareError (Unit {0})).
          IsSound (library codecs).hashers (f id w).0)
        (some_inj.0 q) v;
  sends = λ conn bytes w v. record { valid = v.valid; consistent = v.consistent };
  sleeps = λ w v. v;
  builds = λ w v. v;
}

abbrev ann : ConnectionIdentity
ann = record { user_id = some (codes "ann"); tenant_id = none; metadata = none }

abbrev asked : Frame → NegotiationResult
unfolding parse_connect_message system_command
asked frame = parse_connect_message (library codecs).to_lowercase (system_command frame)

ann_let_in :
    (c : Codecs Frame)
    → authenticate_connection (library c) environment core with_token c1 (asked with_token) world
      ≡ (world, ok ann)
unfolding authenticate_connection identity_of extract_token_from_frame text_beq success
ann_let_in c = refl

authenticate_connection-IsVouched_example :
    (token : Text) × (r : AuthResult) × (extract_token_from_frame with_token ≡ some token)
    × (let given : World App × Result FlareError AuthResult = (world, ok (success (some token))) in
        given ≡ (world, ok r))
    × IsVouched r ann
authenticate_connection-IsVouched_example =
    authenticate_connection-IsVouched (library codecs) environment core
      (λ token id info metadata w. (w, ok (success (some token)))) with_token c1 (asked with_token)
      world world ann refl refl (ann_let_in codecs)

abbrev refused : FlareError
refused = authentication_failed (codes "未提供 token")

nobody_let_in :
    authenticate_connection
      (library codecs)
      environment
      core
      (connect [])
      c1
      (asked (connect []))
      world
    ≡ (world, err refused)
unfolding authenticate_connection identity_of extract_token_from_frame text_beq success
nobody_let_in = refl

abbrev client : ClientCore
client = record {
  state_manager = state_new 1;
  heartbeat_manager = mutex false;
  client_connection = mutex (some 7);
  pending_map = [];
  negotiation_completed = false;
  negotiation_failure = mutex none;
  disconnect_requested = false;
  server_shutdown = false;
  session_ended_by_server = mutex none;
  pending_kick = mutex none;
  kick_reported = false;
  heard = [];
  closed = [];
}

abbrev told : Text
told = codes "AUTHENTICATION_FAILED"

abbrev rejection : SystemCommand
unfolding connect_rejection
rejection = connect_rejection Codes.authentication_failed (reason refused)

refusal_wire :
    serialize codecs pre_negotiation_parser (frame_with_system_command [] rejection) ≡ ok told
unfolding serialize frame_with_system_command connect_rejection pre_negotiation_parser text_beq
    reason compress_data encrypt_data
refusal_wire = refl

handle_connect_complete-refused_example :
    let reply = frame_with_system_command [] rejection in
    (handle_connect_complete (library codecs) environment core (connect []) c1 8 world
      ≡ (record world { app = (8, told) ∷ [] }, err refused))
    × (is_refusal (some Codes.authentication_failed) ≡ true)
    × (parse_with_fallback codecs pre_negotiation_parser told true ≡ ok reply)
    × (system_command reply ≡ some rejection)
    × ((record_connect_rejection client rejection).negotiation_failure.value
        ≡ some (connect_rejected Codes.authentication_failed told))
unfolding parse_connect_message asked connect_rejection rejection code reason is_typed_reason
handle_connect_complete-refused_example =
    handle_connect_complete-refused (library codecs) environment core (connect []) c1 8 world world
      refused told true client nobody_let_in
      (codecs-IsLawful pre_negotiation_parser (frame_with_system_command [] rejection)) refusal_wire
      refl refl

environment-IsQuiet : IsQuiet environment
environment-IsQuiet = record {
  sleeps = λ w. refl;
  builds = λ w. refl;
  sends = λ conn bytes w. refl;
  connects = λ on_connect id w q.
      subst
        (λ (f : Text → World App → World App × Result FlareError (Unit {0})).
          (f id w).0.server ≡ w.server)
        (some_inj.0 q) refl;
}

abbrev entry : ConnectionEntry
entry = entry_new (library silent).hashers 5 100 c1 7 8 none true

entry_found : entry_in (library silent) environment core world c1 ≡ some entry
unfolding find add_connection_with_limit after_reserve reserve_connection_slot
    with_write_queue_limits insert_reserved owner write insert
entry_found = refl

abbrev done : World App
unfolding handle_connect_complete
done = (handle_connect_complete (library silent) environment core with_token c1 8 world).0

connected :
    handle_connect_complete (library silent) environment core with_token c1 8 world ≡ (done, ok tt)
unfolding handle_connect_complete success send_ack compress_data encrypt_data acknowledged notice
    noticed
connected = refl

handle_connect_complete-IsAccepted_example :
    (after : ConnectionEntry) × (entry_in (library silent) environment core done c1 ≡ some after)
    × IsAccepted ann
        (settled_parser (library silent) environment core (asked with_token))
        entry.info
        after.info
unfolding asked
handle_connect_complete-IsAccepted_example =
    handle_connect_complete-IsAccepted (library silent) environment core with_token c1 8 world world
      done ann entry environment-IsQuiet world-IsSound (ann_let_in silent) entry_found connected

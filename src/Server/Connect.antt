-- ===== src/Server/Connect.antt =====
-- A connection's set-up up to its acknowledgement: `handle_connect_message` of
-- src/server/transports/server_core.rs and what it calls.
pub mod Completion
pub mod Tables
pub mod Sound
pub mod Refusals
pub mod Identity
pub mod Entries
pub mod Accepted
use flare_core.Base.{
  ℕ, Bool, true, false, not, ◌||◌, List, [], ◌++◌, Option, none, some, Text, text_eq, ◌==◌,
  if◌then◌else◌, Result, ok, err, filter, is_empty,
}
use flare_core.Base.Chars.{codes}
use flare_core.Base.Dict.{insert}
use flare_core.Connection.Info.{
  ConnectionInfo, MessageParser, parser_new, pre_negotiation_parser, SerializationFormat,
  CompressionAlgorithm, EncryptionAlgorithm,
}
use flare_core.Connection.Manager.Lifecycle.{get_connection}
use flare_core.Connection.Manager.Ops.{
  Codec, update_connection_negotiation, set_connection_authenticated,
  update_connection_negotiation_with_pipeline,
}
use flare_core.Device.Platform.{DeviceInfo}
use flare_core.Device.Registry.Defs.{DeviceOwner, owner_new}
use flare_core.Device.Strategy.{DeviceConflictStrategy}
use flare_core.DeviceHandler.{handle_device_conflict}
use flare_core.Errors.{
  FlareError, localized, authentication_failed, configuration_error, display, code, reason,
}
use flare_core.Errors.Codes.{ErrorCode, service_unavailable, as_str}
use flare_core.Errors.Codes as Codes
use flare_core.Kick.{SystemCommand, as_bytes}
use flare_core.Negotiation.Connect.{Metadata, NegotiationResult, parse_connect_message}
use flare_core.Negotiation.Settle.{
  ConnectionIdentity, declared, connection_metadata, determine_negotiation_result,
  create_connect_ack, is_typed_reason,
}
use flare_core.Parser.{Bytes, ParseError, serialize}
use flare_core.Server.Authentication.{
  AuthResult, identity_of, extract_token_from_frame, extract_system_command_metadata,
}
use flare_core.Server.Frames.{
  Frame, system_command, frame_with_system_command, frame_with_connect_ack, error_command, kicked,
}
use flare_core.Server.Pipelines.{pipeline_for_negotiation_profile}
use flare_core.Server.World.{World, ServerCore, Library, Environment, connections, with_connections}

abbrev pub option_map {ℓ κ} : {A : Type ℓ} {B : Type κ} → (A → B) → Option A → Option B
option_map f none = none
option_map f (some a) = some (f a)

abbrev pub owner_of_identity : ConnectionIdentity → Option DeviceOwner
owner_of_identity i = option_map (owner_new i.tenant_id) i.user_id

module _ {S : Type 0} (l : Library) (env : Environment S) (core : ServerCore) where
  -- An authenticator that fails says nothing of the token.
  abbrev pub judged :
      World S × Result FlareError AuthResult → World S × Result FlareError ConnectionIdentity
  judged (w, ok r) = (w, identity_of r)
  judged (w, err e) = (w, err (localized service_unavailable (codes "认证过程出错: " ++ display e)))

  unfoldable pub authenticate_connection :
      Frame → Text → NegotiationResult → World S → World S × Result FlareError ConnectionIdentity
  unfolding identity_of display extract_token_from_frame extract_system_command_metadata declared
  authenticate_connection frame id n w =
      if not core.auth_enabled then (w, ok (declared n)) else elim env.authenticator [
        | none ↦ (w, ok (declared n))
        | some authenticate ↦ elim (extract_token_from_frame frame) [
          | none ↦ (w, err (authentication_failed (codes "未提供 token")))
          | some token ↦
              judged (authenticate token id n.device_info (extract_system_command_metadata frame) w)
        ]
      ]

  -- An update that fails is only logged.
  unfoldable pub update_connection_info : Text → Codec → ConnectionIdentity → World S → World S
  unfolding update_connection_negotiation connection_metadata
  update_connection_info id c identity w =
      with_connections w
        (update_connection_negotiation l.hashers (connections w) id c identity.user_id
          (connection_metadata identity)).0

  unfoldable pub mark_connection_authenticated : Text → Option Text → World S → World S
  unfolding set_connection_authenticated
  mark_connection_authenticated id user w =
      with_connections w
        (set_connection_authenticated l.hashers (connections w) (env.unix w) id user).0

  abbrev pub conflicts_of :
      Text → Option DeviceInfo → Option DeviceOwner → World S → World S × List Text
  conflicts_of id (some info) (some owner) w =
      let (server, conflicts) =
        handle_device_conflict l.hashers core.device_manager w.server owner id
          (l.debug_platform info.platform) info in
      (record w { server = server }, filter (λ old. not (old == id)) conflicts)
  conflicts_of id _ _ w = (w, [])

  abbrev pub ack_metadata : List Text → Metadata
  ack_metadata conflicts =
      if is_empty conflicts
      then []
      else insert (codes "conflict_connections") (l.to_json conflicts) []

  abbrev pub settled :
      NegotiationResult → SerializationFormat × CompressionAlgorithm × EncryptionAlgorithm
  unfolding determine_negotiation_result
  settled n = determine_negotiation_result core.defaults n

  abbrev pub settled_parser : NegotiationResult → MessageParser
  unfolding parser_new
  settled_parser n =
      let (format, compression, encryption) = settled n in parser_new format compression encryption

  abbrev pub settled_codec : NegotiationResult → Codec
  settled_codec n =
      let (format, compression, encryption) = settled n in
      record {
        device_info = n.device_info;
        serialization_format = format;
        compression = compression;
        encryption = encryption;
      }

  unfoldable pub acknowledgement : NegotiationResult → List Text → World S → Frame
  unfolding create_connect_ack frame_with_connect_ack insert
  acknowledgement n conflicts w =
      let (format, compression, encryption) = settled n in
      frame_with_connect_ack (env.generate_message_id w) (
        create_connect_ack l.compressors l.encryptors format compression encryption
          (some (ack_metadata conflicts)))

  -- What follows a successful authentication: the tables, then, after a pause in which others may run,
  -- the conflicts.
  unfoldable pub registered : Text → NegotiationResult → ConnectionIdentity → World S → World S
  unfolding update_connection_info mark_connection_authenticated
  registered id n identity w =
      mark_connection_authenticated id identity.user_id
        (update_connection_info id (settled_codec n) identity w)

  unfoldable pub negotiated_with :
      Text → NegotiationResult → ConnectionIdentity → World S → World S × Frame × MessageParser
  unfolding registered acknowledgement handle_device_conflict owner_new
  negotiated_with id n identity w =
      let (after, conflicts) =
        conflicts_of id n.device_info (owner_of_identity identity)
          (env.sleep (registered id n identity w)) in
      (after, acknowledgement n conflicts after, settled_parser n)

  abbrev pub then_negotiated :
      Text
      → NegotiationResult
      → World S × Result FlareError ConnectionIdentity
      → World S × Result FlareError (Frame × MessageParser)
  then_negotiated id n (w, err e) = (w, err e)
  then_negotiated id n (w, ok identity) =
      let (after, ack, parser) = negotiated_with id n identity w in (after, ok (ack, parser))

  unfoldable pub handle_connect_message :
      Frame → Text → World S → World S × Result FlareError (Frame × MessageParser)
  unfolding authenticate_connection negotiated_with parse_connect_message system_command
  handle_connect_message frame id w =
      let n = parse_connect_message l.to_lowercase (system_command frame) in
      then_negotiated id n (authenticate_connection frame id n w)

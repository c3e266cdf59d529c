-- ===== src/Server/Connect/Completion.antt =====
-- The rest of a connection's set-up, in src/server/transports/server_core.rs: the refusal or the
-- acknowledgement, what follows it, and the notice of the application.
use flare_core.Base.{ℕ, [], Option, none, some, Text, text_eq, if◌then◌else◌, Result, ok, err}
use flare_core.Base.Chars.{codes}
use flare_core.Base.Dict.{insert}
use flare_core.Connection.Info.{ConnectionInfo, MessageParser, parser_new, pre_negotiation_parser}
use flare_core.Connection.Manager.Lifecycle.{get_connection}
use flare_core.Connection.Manager.Ops.{Codec, update_connection_negotiation_with_pipeline}
use flare_core.Errors.{FlareError, configuration_error, code, reason}
use flare_core.Errors.Codes.{ErrorCode, service_unavailable, as_str}
use flare_core.Errors.Codes as Codes
use flare_core.Kick.{SystemCommand, as_bytes}
use flare_core.Negotiation.Settle.{is_typed_reason}
use flare_core.Parser.{Bytes, ParseError, serialize}
use flare_core.Server.Frames.{Frame, frame_with_system_command, error_command, kicked}
use flare_core.Server.Pipelines.{pipeline_for_negotiation_profile}
use flare_core.Server.World.{World, ServerCore, Library, Environment, connections, with_connections}
use flare_core.Server.Connect.{handle_connect_message}

abbrev pub or_code : Text → Text → Text
or_code reason code = if is_typed_reason reason then reason else code

unfoldable pub connect_rejection : ErrorCode → Text → SystemCommand
unfolding error_command as_str is_typed_reason insert as_bytes
connect_rejection c reason =
    error_command (or_code reason (as_str c)) (insert (codes "code") (as_bytes (as_str c)) [])

abbrev pub code_or_connection_failed : Option ErrorCode → ErrorCode
code_or_connection_failed none = Codes.connection_failed
code_or_connection_failed (some c) = c

unfoldable pub post_ack_rejection : FlareError → SystemCommand
unfolding kicked as_str is_typed_reason insert as_bytes code reason
post_ack_rejection e =
    let text = as_str (code_or_connection_failed (code e)) in
    let why = or_code (reason e) text in
    kicked why (insert (codes "code") (as_bytes text) (insert (codes "reason") (as_bytes why) []))

module _ {S : Type 0} (l : Library) (env : Environment S) (core : ServerCore) where
  -- The rejection is written to the connection if it can be encoded; whether it arrives changes nothing.
  abbrev pub send_if_encoded : ℕ → Result ParseError Bytes → World S → World S
  send_if_encoded conn (err e) w = w
  send_if_encoded conn (ok bytes) w = (env.send conn bytes w).0

  unfoldable pub send_connect_rejection : ℕ → ErrorCode → Text → World S → World S
  unfolding connect_rejection frame_with_system_command serialize pre_negotiation_parser
  send_connect_rejection conn c reason w =
      let frame =
        frame_with_system_command (env.generate_message_id w) (connect_rejection c reason) in
      send_if_encoded conn (serialize l.codecs pre_negotiation_parser frame) w

  unfoldable pub send_post_ack_rejection : ℕ → MessageParser → FlareError → World S → World S
  unfolding post_ack_rejection frame_with_system_command serialize
  send_post_ack_rejection conn parser e w =
      let frame = frame_with_system_command (env.generate_message_id w) (post_ack_rejection e) in
      send_if_encoded conn (serialize l.codecs parser frame) w

  -- The connection may be gone by now.
  abbrev pub finalized_with : Text → MessageParser → Option (ℕ × ConnectionInfo) → World S → World S
  finalized_with id p none w = w
  finalized_with id p (some (handle, info)) w =
      let (built, pipeline) =
        pipeline_for_negotiation_profile env core
          (record {
            format = p.default_format;
            compression = p.default_compression;
            encryption = p.default_encryption;
          })
          w in
      let c : Codec = record {
        device_info = info.device_info;
        serialization_format = p.default_format;
        compression = p.default_compression;
        encryption = p.default_encryption;
      } in
      with_connections built
        (update_connection_negotiation_with_pipeline l.hashers (connections built) id c info.user_id
          (parser_new p.default_format p.default_compression p.default_encryption) pipeline).0

  unfoldable pub finalize_negotiation_after_ack : Text → MessageParser → World S → World S
  unfolding pipeline_for_negotiation_profile update_connection_negotiation_with_pipeline
      get_connection parser_new
  finalize_negotiation_after_ack id p w =
      finalized_with id p (get_connection l.hashers (connections w) id) w

  unfoldable pub noticed :
      ℕ
      → MessageParser
      → World S × Result FlareError (Unit {0})
      → World S × Result FlareError (Unit {0})
  unfolding send_post_ack_rejection
  noticed conn p (w, ok _) = (w, ok tt)
  noticed conn p (w, err e) = (send_post_ack_rejection conn p e w, err e)

  unfoldable pub notice :
      Option (Text → World S → World S × Result FlareError (Unit {0}))
      → Text
      → ℕ
      → MessageParser
      → World S
      → World S × Result FlareError (Unit {0})
  unfolding send_post_ack_rejection
  notice none id conn p w = (
    w,
    err (
        configuration_error
          (codes "ServerEventHandler is required to complete connection but was not configured")),
  )
  notice (some on_connect) id conn p w = noticed conn p (on_connect id w)

  unfoldable pub acknowledged :
      Text
      → ℕ
      → MessageParser
      → World S × Result FlareError (Unit {0})
      → World S × Result FlareError (Unit {0})
  unfolding finalize_negotiation_after_ack send_post_ack_rejection
  acknowledged id conn p (w, err e) = (w, err e)
  acknowledged id conn p (w, ok _) =
      notice env.on_connect id conn p (finalize_negotiation_after_ack id p w)

  -- Only what says something of the token, or asks to come again, is told.
  unfoldable pub rejected : ℕ → FlareError → Option ErrorCode → World S → World S
  unfolding send_connect_rejection reason
  rejected conn e (some Codes.authentication_failed) w =
      send_connect_rejection conn Codes.authentication_failed (reason e) w
  rejected conn e (some service_unavailable) w =
      send_connect_rejection conn service_unavailable (reason e) w
  rejected conn e _ w = w

  unfoldable pub send_ack :
      Text
      → ℕ
      → MessageParser
      → Result ParseError Bytes
      → World S
      → World S × Result FlareError (Unit {0})
  unfolding finalize_negotiation_after_ack send_post_ack_rejection
  send_ack id conn p (err e) w = (w, err (l.codec_failure e))
  send_ack id conn p (ok bytes) w = acknowledged id conn p (env.send conn bytes w)

  unfoldable pub complete :
      Text
      → ℕ
      → World S × Result FlareError (Frame × MessageParser)
      → World S × Result FlareError (Unit {0})
  unfolding send_connect_rejection reason code serialize pre_negotiation_parser
      finalize_negotiation_after_ack send_post_ack_rejection
  complete id conn (w, err e) = (rejected conn e (code e) w, err e)
  complete id conn (w, ok (ack, p)) =
      send_ack id conn p (serialize l.codecs pre_negotiation_parser ack) w

  unfoldable pub handle_connect_complete :
      Frame → Text → ℕ → World S → World S × Result FlareError (Unit {0})
  unfolding complete handle_connect_message
  handle_connect_complete frame id conn w =
      complete id conn (handle_connect_message l env core frame id w)

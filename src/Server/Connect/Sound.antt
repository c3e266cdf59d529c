-- ===== src/Server/Connect/Sound.antt =====
-- Proofs on src/server/transports/server_core.rs: a connection's set-up keeps the server's tables sound,
-- on every path, if what it waits for does.
use flare_core.Base.{
  ℕ, ◌+◌, ◌≡◌, refl, Option, none, some, Text, Result, ok, err, Bool-cases, Option-cases, inl, inr,
}
use flare_core.Connection.Info.{ConnectionInfo, MessageParser}
use flare_core.Connection.Manager.Ops.{update_connection_negotiation_with_pipeline}
use flare_core.Connection.Manager.State.{Hashers}
use flare_core.Connection.Manager.Updates.{update_info-IsValid}
use flare_core.Base.Dict.{get}
use flare_core.Device.Platform.{DeviceInfo}
use flare_core.Errors.{FlareError, code}
use flare_core.Errors.Codes.{ErrorCode, service_unavailable}
use flare_core.Errors.Codes as Codes
use flare_core.Negotiation.Connect.{Metadata, NegotiationResult, parse_connect_message}
use flare_core.Negotiation.Settle.{ConnectionIdentity}
use flare_core.Parser.{Bytes, ParseError}
use flare_core.Server.Authentication.{
  AuthResult, extract_token_from_frame, extract_system_command_metadata,
}
use flare_core.Server.Frames.{Frame, system_command}
use flare_core.Server.Pipelines.{key_eq, cached, make, pipeline_for_negotiation_profile}
use flare_core.Server.World.{PipelineCacheKey, World, ServerCore, Library, Environment}
use flare_core.Server.Connect.Tables.{IsSound, Keeps, registered-IsSound, conflicts_of-IsSound}
use flare_core.Server.Connect.{
  authenticate_connection, judged, negotiated_with, then_negotiated, handle_connect_message,
  owner_of_identity,
}
use flare_core.Server.Connect.Completion.{
  send_if_encoded, send_connect_rejection, send_post_ack_rejection, finalized_with,
  finalize_negotiation_after_ack, noticed, notice, acknowledged, rejected, send_ack, complete,
  handle_connect_complete,
}

-- Other tasks, the authenticator, the transport and the application keep the tables sound.
pub record IsKeeping {S : Type 0} (h : Hashers) (env : Environment S) : Type 0 where
  pub authenticates :
      (authenticate : Text
        → Text
        → Option DeviceInfo
        → Option Metadata
        → World S
        → World S × Result FlareError AuthResult)
      (token id : Text) (info : Option DeviceInfo) (metadata : Option Metadata)
      → env.authenticator ≡ some authenticate
      → Keeps h (λ w. (authenticate token id info metadata w).0)
  pub connects :
      (on_connect : Text → World S → World S × Result FlareError (Unit {0})) (id : Text)
      → env.on_connect ≡ some on_connect
      → Keeps h (λ w. (on_connect id w).0)
  pub sends : (conn : ℕ) (bytes : Bytes) → Keeps h (λ w. (env.send conn bytes w).0)
  pub sleeps : Keeps h env.sleep
  pub builds : Keeps h env.build_pipeline

module _ {S : Type 0} (l : Library) (env : Environment S) (core : ServerCore)
    (k : IsKeeping l.hashers env) where
  abbrev h : Hashers
  h = l.hashers

  judged-world : (r : World S × Result FlareError AuthResult) → (judged l env core r).0 ≡ r.0
  judged-world (w, ok r) = refl
  judged-world (w, err e) = refl

  authenticate_connection-IsSound :
      (frame : Frame) (id : Text) (n : NegotiationResult)
      → Keeps h (λ w. (authenticate_connection l env core frame id n w).0)
  unfolding authenticate_connection
  authenticate_connection-IsSound frame id n w v = elim (Bool-cases core.auth_enabled) [
    | inr off ↦ rw off v
    | inl on ↦ rw on (elim (Option-cases env.authenticator) [
      | inl q ↦ rw q v
      | inr (a, q) ↦ rw q (elim (Option-cases (extract_token_from_frame frame)) [
        | inl t ↦ rw t v
        | inr (token, t) ↦ rw t (
            rw (judged-world (a token id n.device_info (extract_system_command_metadata frame) w)) (
              k.authenticates a token id n.device_info (extract_system_command_metadata frame) q w
                v))
      ])
    ])
  ]

  negotiated_with-IsSound :
      (id : Text) (n : NegotiationResult) (i : ConnectionIdentity)
      → Keeps h (λ w. (negotiated_with l env core id n i w).0)
  unfolding negotiated_with
  negotiated_with-IsSound id n i w v =
      conflicts_of-IsSound l env core id n.device_info (owner_of_identity i) _
        (k.sleeps _ (registered-IsSound l env core id n i w v))

  then_negotiated-IsSound :
      (id : Text) (n : NegotiationResult) (r : World S × Result FlareError ConnectionIdentity)
      → IsSound h r.0
      → IsSound h (then_negotiated l env core id n r).0
  then_negotiated-IsSound id n (w, err e) v = v
  then_negotiated-IsSound id n (w, ok i) v = negotiated_with-IsSound id n i w v

  -- Every path through the negotiation keeps the tables sound.
  pub handle_connect_message-IsSound :
      (frame : Frame) (id : Text) → Keeps h (λ w. (handle_connect_message l env core frame id w).0)
  unfolding handle_connect_message
  handle_connect_message-IsSound frame id w v =
      let n = parse_connect_message l.to_lowercase (system_command frame) in
      then_negotiated-IsSound id n (authenticate_connection l env core frame id n w)
        (authenticate_connection-IsSound frame id n w v)

  send_if_encoded-IsSound :
      (conn : ℕ) (r : Result ParseError Bytes) → Keeps h (send_if_encoded l env core conn r)
  send_if_encoded-IsSound conn (err e) w v = v
  send_if_encoded-IsSound conn (ok bytes) w v = k.sends conn bytes w v

  rejected-IsSound :
      (conn : ℕ) (e : FlareError) (c : Option ErrorCode) → Keeps h (rejected l env core conn e c)
  unfolding send_connect_rejection rejected
  rejected-IsSound conn e none w v = v
  rejected-IsSound conn e (some Codes.authentication_failed) w v =
      send_if_encoded-IsSound conn _ w v
  rejected-IsSound conn e (some service_unavailable) w v = send_if_encoded-IsSound conn _ w v
  rejected-IsSound conn e (some _) w v = v

  cached-IsSound :
      (key : PipelineCacheKey) (made : ℕ) (found : Option ℕ)
      → Keeps h (λ w. (cached env key made w found).0)
  cached-IsSound key made none w v = record { valid = v.valid; consistent = v.consistent }
  cached-IsSound key made (some p) w v = v

  made-IsSound : (key : PipelineCacheKey) → Keeps h (λ w. (make env key w).0)
  made-IsSound key w v = cached-IsSound key w.pipelines_made _ _ (
      k.builds (record w { pipelines_made = w.pipelines_made + 1 })
        (record { valid = v.valid; consistent = v.consistent }))

  pipeline-IsSound :
      (key : PipelineCacheKey) → Keeps h (λ w. (pipeline_for_negotiation_profile env core key w).0)
  unfolding pipeline_for_negotiation_profile
  pipeline-IsSound key w v = elim (Bool-cases core.has_pipeline) [
    | inr off ↦ rw off v
    | inl on ↦ rw on (elim (Option-cases (get key w.pipeline_cache)) [
      | inr (p, q) ↦ rw q v
      | inl q ↦ rw q (made-IsSound key w v)
    ])
  ]

  finalized_with-IsSound :
      (id : Text) (p : MessageParser) (found : Option (ℕ × ConnectionInfo))
      → Keeps h (finalized_with l env core id p found)
  unfolding update_connection_negotiation_with_pipeline
  finalized_with-IsSound id p none w v = v
  finalized_with-IsSound id p (some (handle, info)) w v =
      let built = pipeline-IsSound _ w v in
      record { valid = update_info-IsValid h _ id _ built.valid; consistent = built.consistent }

  noticed-IsSound :
      (conn : ℕ) (p : MessageParser) (r : World S × Result FlareError (Unit {0}))
      → IsSound h r.0
      → IsSound h (noticed l env core conn p r).0
  unfolding noticed send_post_ack_rejection
  noticed-IsSound conn p (w, ok u) v = v
  noticed-IsSound conn p (w, err e) v = send_if_encoded-IsSound conn _ w v

  notice-IsSound :
      (id : Text) (conn : ℕ) (p : MessageParser)
      → Keeps h (λ w. (notice l env core env.on_connect id conn p w).0)
  unfolding notice noticed
  notice-IsSound id conn p w v = elim (Option-cases env.on_connect) [
    | inl q ↦ rw q v
    | inr (f, q) ↦ rw q (noticed-IsSound conn p (f id w) (k.connects f id q w v))
  ]

  acknowledged-IsSound :
      (id : Text) (conn : ℕ) (p : MessageParser) (r : World S × Result FlareError (Unit {0}))
      → IsSound h r.0
      → IsSound h (acknowledged l env core id conn p r).0
  unfolding acknowledged finalize_negotiation_after_ack
  acknowledged-IsSound id conn p (w, err e) v = v
  acknowledged-IsSound id conn p (w, ok u) v =
      notice-IsSound id conn p _ (finalized_with-IsSound id p _ w v)

  send_ack-IsSound :
      (id : Text) (conn : ℕ) (p : MessageParser) (r : Result ParseError Bytes)
      → Keeps h (λ w. (send_ack l env core id conn p r w).0)
  unfolding send_ack
  send_ack-IsSound id conn p (err e) w v = v
  send_ack-IsSound id conn p (ok bytes) w v =
      acknowledged-IsSound id conn p (env.send conn bytes w) (k.sends conn bytes w v)

  complete-IsSound :
      (id : Text) (conn : ℕ) (r : World S × Result FlareError (Frame × MessageParser))
      → IsSound h r.0
      → IsSound h (complete l env core id conn r).0
  unfolding complete
  complete-IsSound id conn (w, err e) v = rejected-IsSound conn e (code e) w v
  complete-IsSound id conn (w, ok (ack, p)) v = send_ack-IsSound id conn p _ w v

  -- If what a connection's set-up waits for keeps the connection manager valid and the device
  -- registry consistent, so does the set-up, whether it succeeds or fails.
  pub handle_connect_complete-IsSound :
      (frame : Frame) (id : Text) (conn : ℕ)
      → Keeps h (λ w. (handle_connect_complete l env core frame id conn w).0)
  unfolding handle_connect_complete
  handle_connect_complete-IsSound frame id conn w v =
      complete-IsSound id conn (handle_connect_message l env core frame id w)
        (handle_connect_message-IsSound frame id w v)

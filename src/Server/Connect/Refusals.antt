-- ===== src/Server/Connect/Refusals.antt =====
-- Proofs on src/server/transports/server_core.rs: what a client that is refused learns, up to
-- `record_connect_rejection` of src/client/transports/client_core.rs.
use flare_core.Base.{
  ℕ, ◌≡◌, refl, inl, inr, Bool, is_empty, [], ◌∷◌, ◌∙◌, true, false, Option, none, some, arith,
  Text, Result, ok, err, subst, ap, Bool-cases, Option-cases, text_beq, text_eq, ◌==◌,
  if◌then◌else◌,
}
use flare_core.Base.Dict.{get, insert}
use flare_core.Client.Session.{
  ClientCore, connect_rejected, connect_rejection_error, or_given, record_connect_rejection,
}
use flare_core.Connection.Info.{pre_negotiation_parser}
use flare_core.Errors.{FlareError, code, reason}
use flare_core.Errors.Codes.{ErrorCode, service_unavailable, as_str, parse_error_code}
use flare_core.Errors.Codes as Codes
use flare_core.Kick.{as_bytes, from_utf8, decode, tenant_unavailable_reason}
use flare_core.Negotiation.Settle.{is_typed_reason, all_typed}
use flare_core.Negotiation.Typed.{trim-typed, is_typed_reason-all_typed}
use flare_core.Negotiation.Connect.{NegotiationResult, parse_connect_message}
use flare_core.Parser.{Bytes, serialize, parse_with_fallback}
use flare_core.Parser.Laws.{IsLawful, parse-serialize}
use flare_core.Server.Authentication.{
  AuthResult, identity_of, extract_token_from_frame, extract_system_command_metadata,
}
use flare_core.Server.Frames.{Frame, system_command, frame_with_system_command, error_command}
use flare_core.Server.World.{World, ServerCore, Library, Environment}
use flare_core.Server.Connect.{authenticate_connection, judged, handle_connect_message}
use flare_core.Server.Connect.Completion.{
  connect_rejection, code_or_connection_failed, or_code, complete, rejected, send_if_encoded,
  send_connect_rejection, handle_connect_complete,
}

-- A refusal is of the token, or for now.
abbrev pub is_refusal : Option ErrorCode → Bool
is_refusal (some Codes.authentication_failed) = true
is_refusal (some service_unavailable) = true
is_refusal _ = false

abbrev refuses : {A : Type 0} → Result FlareError A → Bool
refuses (ok a) = true
refuses (err e) = is_refusal (code e)

-- The code that the client keeps: what a typed reason names, or the refusal's own code.
abbrev pub kept_code : ErrorCode → Text → ErrorCode
kept_code c told =
    if is_typed_reason told
    then if told == tenant_unavailable_reason
      then Codes.permission_denied
      else or_given c (parse_error_code told)
    else c

identity_of-refuses : (r : AuthResult) → refuses (identity_of r) ≡ true
unfolding identity_of code
identity_of-refuses r = ground arith

typed-heard :
    (t beside : Text) (c : ErrorCode)
    → is_empty t ≡ false
    → all_typed t ≡ true
    → is_empty beside ≡ false
    → all_typed beside ≡ true
    → parse_error_code beside ≡ some c
    → connect_rejection_error t (some beside)
      ≡ connect_rejected
          (if t == tenant_unavailable_reason
            then Codes.permission_denied
            else or_given c (parse_error_code t))
          t
unfolding connect_rejection_error
typed-heard t beside c full typed full_beside typed_beside h =
    elim (Option-cases (parse_error_code t)) [
      | inl q ↦
          rw (trim-typed t typed, trim-typed beside typed_beside, full, full_beside, q, h) refl
      | inr (d, q) ↦
          rw (trim-typed t typed, trim-typed beside typed_beside, full, full_beside, q) refl
    ]

is_typed_reason-full : (t : Text) → is_typed_reason t ≡ true → is_empty t ≡ false
unfolding is_typed_reason
is_typed_reason-full [] h = absurd (ground arith)
is_typed_reason-full (c ∷ t) h = refl

-- What the client keeps of a refusal with a code whose name is typed and is read as the code.
kept-label :
    (c : ErrorCode) (text : Text)
    → is_empty (as_str c) ≡ false
    → all_typed (as_str c) ≡ true
    → parse_error_code (as_str c) ≡ some c
    → (as_str c == tenant_unavailable_reason) ≡ false
    → connect_rejection_error (or_code text (as_str c)) (some (as_str c))
      ≡ connect_rejected (kept_code c text) (or_code text (as_str c))
kept-label c text full typed parsed other = elim (Bool-cases (is_typed_reason text)) [
  | inl q ↦ rw q (
      typed-heard text (as_str c) c (is_typed_reason-full text q) (is_typed_reason-all_typed text q)
        full typed parsed)
  | inr q ↦
      rw q
        (typed-heard (as_str c) (as_str c) c full typed full typed parsed ∙ rw (other, parsed) refl)
]

module _ {S : Type 0} (l : Library) (env : Environment S) (core : ServerCore) where
  judged-refuses :
      (r : World S × Result FlareError AuthResult) → refuses (judged l env core r).1 ≡ true
  unfolding code
  judged-refuses (w, ok r) = identity_of-refuses r
  judged-refuses (w, err e) = refl

  authenticate_connection-refuses :
      (frame : Frame) (id : Text) (n : NegotiationResult) (w : World S)
      → refuses (authenticate_connection l env core frame id n w).1 ≡ true
  unfolding authenticate_connection code
  authenticate_connection-refuses frame id n w = elim (Bool-cases core.auth_enabled) [
    | inr off ↦ rw off refl
    | inl on ↦ rw on (elim (Option-cases env.authenticator) [
      | inl q ↦ rw q refl
      | inr (a, q) ↦ rw q (elim (Option-cases (extract_token_from_frame frame)) [
        | inl t ↦ rw t refl
        | inr (token, t) ↦
            rw t
              (judged-refuses (a token id n.device_info (extract_system_command_metadata frame) w))
      ])
    ])
  ]

  rejected-refusal :
      (conn : ℕ) (e : FlareError) (c : Option ErrorCode) (w : World S)
      → is_refusal c ≡ true
      → rejected l env core conn e c w
        ≡ send_connect_rejection l env core conn (code_or_connection_failed c) (reason e) w
  unfolding rejected
  rejected-refusal conn e (some Codes.authentication_failed) w h = refl
  rejected-refusal conn e (some service_unavailable) w h = refl
  rejected-refusal conn e _ w h = absurd (ground arith)

  rejection-heard :
      (s : ClientCore) (c : Option ErrorCode) (text : Text)
      → is_refusal c ≡ true
      → s.negotiation_failure.poisoned ≡ false
      → s.negotiation_failure.value ≡ none
      → let refused = code_or_connection_failed c in
        (record_connect_rejection s (connect_rejection refused text)).negotiation_failure.value
        ≡ some (connect_rejected (kept_code refused text) (or_code text (as_str refused)))
  unfolding record_connect_rejection connect_rejection error_command get insert as_bytes from_utf8
      decode as_str text_beq parse_error_code
  rejection-heard s (some Codes.authentication_failed) text h u v =
      rw (u, v) (ap some (kept-label Codes.authentication_failed text refl refl refl refl))
  rejection-heard s (some service_unavailable) text h u v =
      rw (u, v) (ap some (kept-label service_unavailable text refl refl refl refl))
  rejection-heard s _ text h u v = absurd (ground arith)

  -- A connection whose authentication fails, for whatever reason, changes nothing but what the
  -- authenticator has changed, and is sent the refusal, if that can be encoded. If the codecs read
  -- back what they write of the refusal, the client reads it with the parser it has then and, if
  -- it has kept no failure yet and its lock is not poisoned, keeps why it was refused. What it
  -- keeps is labelled with the error's own text only if that is a typed reason, else with the
  -- code. Its code is that the token failed or that it may try again, unless a typed reason names
  -- another: a tenant that is unavailable is a denied permission, and a code's name is that code.
  pub handle_connect_complete-refused :
      (frame : Frame) (id : Text) (conn : ℕ) (w v : World S) (e : FlareError) (wire : Bytes)
      (allow : Bool) (s : ClientCore)
      → authenticate_connection l env core frame id
          (parse_connect_message l.to_lowercase (system_command frame))
          w
        ≡ (v, err e)
      → let c = code_or_connection_failed (code e) in
        let rejection = connect_rejection c (reason e) in
        let reply = frame_with_system_command (env.generate_message_id v) rejection in
        IsLawful l.codecs pre_negotiation_parser reply
        → serialize l.codecs pre_negotiation_parser reply ≡ ok wire
        → s.negotiation_failure.poisoned ≡ false
        → s.negotiation_failure.value ≡ none
        → (handle_connect_complete l env core frame id conn w ≡ ((env.send conn wire v).0, err e))
          × (is_refusal (code e) ≡ true)
          × (parse_with_fallback l.codecs pre_negotiation_parser wire allow ≡ ok reply)
          × (system_command reply ≡ some rejection)
          × ((record_connect_rejection s rejection).negotiation_failure.value
              ≡ some (connect_rejected (kept_code c (reason e)) (or_code (reason e) (as_str c))))
  unfolding handle_connect_complete handle_connect_message complete send_connect_rejection
      system_command frame_with_system_command
  handle_connect_complete-refused frame id conn w v e wire allow s h lawful q u n_free =
      let n = parse_connect_message l.to_lowercase (system_command frame) in
      let refusal : is_refusal (code e) ≡ true =
        subst (λ r. refuses r.1 ≡ true) h (authenticate_connection-refuses frame id n w) in
      let done : handle_connect_complete l env core frame id conn w ≡ (
        send_connect_rejection l env core conn (code_or_connection_failed (code e)) (reason e) v,
        err e,
      ) =
        rw h (ap (λ x. (x, err e)) (rejected-refusal conn e (code e) v refusal)) in
      (
        rw done (ap (λ r. (send_if_encoded l env core conn r v, err e)) q),
        refusal,
        parse-serialize l.codecs pre_negotiation_parser _ wire allow lawful q,
        refl,
        rejection-heard s (code e) (reason e) refusal u n_free,
      )

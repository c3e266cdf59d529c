-- ===== src/Client/Session.antt =====
-- The client's side of a connection's end: `ClientCore` of src/client/transports/client_core.rs and
-- src/client/transports/common.rs, with the reasons of src/common/shutdown.rs. What tasks do at the same
-- time is a sequence of steps: a connection's event, the two halves of the handling of a KICKED, around
-- the close of the connection, and a request to disconnect. The waiters for responses are cleared by a
-- task of its own in the source, and at once here.
use flare_core.Base.{
  ℕ, Bool, true, false, not, ◌&&◌, ◌||◌, List, [], ◌∷◌, ◌++◌, Option, none, some, Text, text_eq,
  ◌==◌, if◌then◌else◌, ltb, is_some, nat_beq, is_empty,
}
use flare_core.Base.Chars.{codes, trim, strip_prefix}
use flare_core.Base.Dict.{get}
use flare_core.Kick.{
  SystemCommand, kick_reason, ends_session, from_utf8, as_bytes, tenant_unavailable_reason,
}
use flare_core.Errors.Codes.{
  ErrorCode, permission_denied, connection_refused, as_str, parse_error_code,
}
use flare_core.Client.{
  Mutex, lock_set, ConnectionState, connected, ConnectionStateManager, get_state, set_connected,
  set_disconnected, set_failed,
}

abbrev pub server_shutdown_reason : Text
server_shutdown_reason = codes "SERVER_SHUTDOWN"

abbrev at_end_or_colon : Option Text → Bool
at_end_or_colon none = false
at_end_or_colon (some []) = true
at_end_or_colon (some (c ∷ rest)) = nat_beq c 58

unfoldable pub is_server_shutdown_reason : Text → Bool
is_server_shutdown_reason reason =
    at_end_or_colon (strip_prefix (trim reason) server_shutdown_reason)

-- `SystemType::Close as i32`, of proto/commands.proto.
abbrev close_type : ℕ
close_type = 3

abbrev is_shutdown_bytes : Option (List ℕ) → Bool
is_shutdown_bytes none = false
is_shutdown_bytes (some bytes) = bytes == as_bytes server_shutdown_reason

unfoldable pub is_server_shutdown_close : SystemCommand → Bool
is_server_shutdown_close c =
    nat_beq c.type close_type
    && (trim c.message == server_shutdown_reason
        || is_shutdown_bytes (get (codes "reason") c.metadata))

-- The connection's events that observers hear of; a message is handled elsewhere.
pub data ConnectionEvent : Type 0 where
  connected_event : ConnectionEvent
  disconnected_event : Text → ConnectionEvent
  error_event : Text → ConnectionEvent

-- Why a negotiation failed: the connection was closed, or the server refused, with the error's code and
-- the label that its text begins with.
pub data NegotiationFailure : Type 0 where
  closed_before_connect_ack : Text → NegotiationFailure
  connect_rejected : ErrorCode → Text → NegotiationFailure

pub record ClientCore : Type 0 where
  pub state_manager : ConnectionStateManager
  pub heartbeat_manager : Mutex Bool
  pub client_connection : Mutex (Option ℕ)
  pub pending_map : List Text
  pub negotiation_completed : Bool
  pub negotiation_failure : Mutex (Option NegotiationFailure)
  pub disconnect_requested : Bool
  pub server_shutdown : Bool
  pub session_ended_by_server : Mutex (Option Text)
  pub pending_kick : Mutex (Option Text)
  pub kick_reported : Bool
  -- What the observers have heard, and the connections closed with their reasons.
  pub heard : List ConnectionEvent
  pub closed : List (ℕ × Option Text)

unfoldable pub set_disconnect_requested : ClientCore → Bool → ClientCore
set_disconnect_requested s value = record s { disconnect_requested = value }

-- The next delay, where `paused` is what the shutdown draws, and whether it was used up.
unfoldable pub reconnect_delay : ClientCore → ℕ → ℕ → ClientCore × ℕ
reconnect_delay s paused configured =
    (record s { server_shutdown = false }, if s.server_shutdown then paused else configured)

unfoldable pub session_ended_by_server : ClientCore → Option Text
session_ended_by_server s =
    if s.session_ended_by_server.poisoned then none else s.session_ended_by_server.value

unfoldable pub end_session_by_server : ClientCore → Text → ClientCore
end_session_by_server s reason = record s {
  session_ended_by_server = lock_set s.session_ended_by_server (some reason);
}

unfoldable pub set_pending_kick : ClientCore → Text → ClientCore
set_pending_kick s reason = record s { pending_kick = lock_set s.pending_kick (some reason) }

-- The kick that is reported with this call.
abbrev kick_taken : ClientCore → ClientCore
kick_taken s = record s { pending_kick = lock_set s.pending_kick none; kick_reported = true }

abbrev taken_from : ClientCore → Option Text → ClientCore × Option Text
taken_from s none = (s, none)
taken_from s (some reason) = (kick_taken s, some reason)

unfoldable pub take_unreported_kick : ClientCore → ClientCore × Option Text
take_unreported_kick s =
    if s.pending_kick.poisoned then (s, none) else taken_from s s.pending_kick.value

pub data CloseReport : Type 0 where
  as_is already_kicked : CloseReport
  kick_report : Text → CloseReport

abbrev report_of : ClientCore → Option Text → ClientCore × CloseReport
report_of s (some reason) = (kick_taken s, kick_report reason)
report_of s none =
    (s, if s.kick_reported && not s.disconnect_requested then already_kicked else as_is)

unfoldable pub close_report : ClientCore → ClientCore × CloseReport
close_report s = if s.pending_kick.poisoned then (s, as_is) else report_of s s.pending_kick.value

abbrev pub is_connected : ConnectionState → Bool
is_connected connected = true
is_connected _ = false

unfoldable pub closed_during_negotiation : ClientCore → Bool
unfolding get_state
closed_during_negotiation s =
    is_connected (get_state s.state_manager)
    && not s.negotiation_completed
    && not s.disconnect_requested

unfoldable pub reset_negotiation_state : ClientCore → ClientCore
reset_negotiation_state s = record s {
  negotiation_completed = false;
  negotiation_failure = lock_set s.negotiation_failure none;
}

-- A failure that is there already stays.
abbrev kept_failure : Option NegotiationFailure → NegotiationFailure → NegotiationFailure
kept_failure none f = f
kept_failure (some old) f = old

unfoldable pub fail_negotiation_on_close : ClientCore → Text → ClientCore
fail_negotiation_on_close s detail = record s {
  negotiation_failure =
      lock_set s.negotiation_failure
        (some (kept_failure s.negotiation_failure.value (closed_before_connect_ack detail)));
}

abbrev text_of : Option (List ℕ) → Option Text
text_of none = none
text_of (some bytes) = from_utf8 bytes

abbrev pub or_given : {A : Type 0} → A → Option A → A
or_given a none = a
or_given a (some b) = b

abbrev trimmed_code : Option Text → Option Text
trimmed_code none = none
trimmed_code (some code) = if is_empty (trim code) then none else some (trim code)

abbrev parsed_or_refused : Option ErrorCode → Option Text → ErrorCode
parsed_or_refused (some c) code = c
parsed_or_refused none none = connection_refused
parsed_or_refused none (some code) = or_given connection_refused (parse_error_code code)

-- The reason is read as a code before the code beside it is.
unfoldable pub connect_rejection_error : Text → Option Text → NegotiationFailure
connect_rejection_error told beside =
    let reason = trim told in
    let code = trimmed_code beside in
    let error_code : ErrorCode =
      if reason == tenant_unavailable_reason
      then permission_denied
      else parsed_or_refused (parse_error_code reason) code in
    connect_rejected error_code
      (if is_empty reason then or_given (as_str error_code) code else reason)

unfoldable pub record_connect_rejection : ClientCore → SystemCommand → ClientCore
record_connect_rejection s c =
    let refused = connect_rejection_error c.message (text_of (get (codes "code") c.metadata)) in
    record s {
      negotiation_failure =
          lock_set s.negotiation_failure (some (kept_failure s.negotiation_failure.value refused));
    }

unfoldable pub stop_heartbeat : ClientCore → ClientCore
stop_heartbeat s = record s { heartbeat_manager = lock_set s.heartbeat_manager false }

unfoldable pub notify : ClientCore → ConnectionEvent → ClientCore
notify s event = record s { heard = s.heard ++ event ∷ [] }

abbrev pub report_event : ClientCore → CloseReport → ConnectionEvent → ClientCore
report_event s as_is event = notify s event
report_event s (kick_report reason) event = notify s (disconnected_event reason)
report_event s already_kicked event = s

-- The state of a connection that is new.
abbrev as_new : ClientCore → ClientCore
as_new s =
    let fresh = record (reset_negotiation_state s) {
      server_shutdown = false;
      session_ended_by_server = lock_set s.session_ended_by_server none;
    } in
    if s.pending_kick.poisoned
    then fresh
    else record fresh { pending_kick = lock_set s.pending_kick none; kick_reported = false }

-- What a close and an error leave, but for the connection's state.
abbrev pub after_close : ClientCore → ConnectionStateManager → Bool → Text → ClientCore
after_close s states failing detail =
    let ended =
      stop_heartbeat
        (record s { state_manager = states; negotiation_completed = false; pending_map = [] }) in
    if failing then fail_negotiation_on_close ended detail else ended

abbrev pub close_and_report :
    ClientCore × CloseReport → ConnectionStateManager → Bool → Text → ConnectionEvent → ClientCore
close_and_report (s, report) states failing detail event =
    report_event (after_close s states failing detail) report event

abbrev pub marked : ClientCore → Text → ClientCore
marked s reason = record s {
  server_shutdown = is_server_shutdown_reason reason || s.server_shutdown;
}

unfoldable pub handle_connection_event : ℕ → ClientCore → ConnectionEvent → ClientCore
unfolding set_connected set_disconnected set_failed get_state close_report
handle_connection_event now s connected_event =
    let already = is_connected (get_state s.state_manager) in
    let t = record s { state_manager = set_connected now s.state_manager } in
    notify (if already then t else as_new t) connected_event
handle_connection_event now s (disconnected_event reason) =
    close_and_report (close_report (marked s reason)) (set_disconnected now s.state_manager)
      (closed_during_negotiation s) reason (disconnected_event reason)
handle_connection_event now s (error_event text) =
    close_and_report (close_report s) (set_failed now s.state_manager) (closed_during_negotiation s)
      text (error_event text)

abbrev closed_with : ClientCore → Option Text → Option ℕ → ClientCore
closed_with s reason none = s
closed_with s reason (some conn) = record s {
  client_connection = lock_set s.client_connection none;
  closed = s.closed ++ (conn, reason) ∷ [];
}

-- Takes the connection out of its slot and closes it; the close brings its own event.
unfoldable pub disconnect_on_kicked : ClientCore → Option Text → ClientCore
disconnect_on_kicked s reason =
    if s.client_connection.poisoned then s else closed_with s reason s.client_connection.value

unfoldable pub should_notify : ClientCore → Bool → Bool
should_notify s negotiated_at_receipt = negotiated_at_receipt && not s.disconnect_requested

abbrev registered : ClientCore → Text → ClientCore
registered s reason =
    set_pending_kick (if ends_session reason then end_session_by_server s reason else s) reason

unfoldable pub kick_with : ℕ → ClientCore → Text → Bool → ClientCore
kick_with now s reason told =
    let t = if told then registered s reason else s in
    disconnect_on_kicked (record t { state_manager = set_disconnected now t.state_manager })
      (if told then some reason else none)

-- `handle_kicked_command`, up to the close of the connection.
unfoldable pub kick_received : ℕ → ClientCore → SystemCommand → Bool → ClientCore
kick_received now s command negotiated_at_receipt =
    kick_with now s (kick_reason command) (should_notify s negotiated_at_receipt)

abbrev report_taken : ClientCore × Option Text → ClientCore
report_taken (s, none) = s
report_taken (s, some reason) = notify s (disconnected_event reason)

-- Then what is left of it: the kick is reported, if no close has reported it.
unfoldable pub kick_handled : ClientCore → Bool → ClientCore
kick_handled s told =
    let t = record s { pending_map = [] } in
    if told then report_taken (take_unreported_kick t) else t

-- `can_reconnect`: no limit, or one above zero.
unfoldable pub can_reconnect : Option ℕ → Bool
can_reconnect none = true
can_reconnect (some n) = ltb 0 n

-- The arguments after the client are the configuration's `reconnect_on_send` and
-- `max_reconnect_attempts`.
unfoldable pub should_reconnect_before_send : Bool → ClientCore → Bool → Option ℕ → Bool
unfolding session_ended_by_server can_reconnect
should_reconnect_before_send is_up s reconnect_on_send max_attempts =
    not is_up
    && reconnect_on_send
    && not s.disconnect_requested
    && not (is_some (session_ended_by_server s))
    && can_reconnect max_attempts

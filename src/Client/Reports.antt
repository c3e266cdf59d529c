-- ===== src/Client/Reports.antt =====
-- Proofs on src/client/transports/client_core.rs: who hears of a kick, and what follows it.
use flare_core.Base.{
  ℕ, ◌≡◌, refl, ◌∙◌, ap, Bool, true, false, not, List, [], ◌∷◌, ◌++◌, Option, none, some, arith,
  Text, is_some,
}
use flare_core.Kick.{SystemCommand, kick_reason, ends_session}
use flare_core.Client.Session.{
  ClientCore, ConnectionEvent, disconnected_event, error_event, handle_connection_event,
  close_report, take_unreported_kick, kick_received, kick_handled, notify, stop_heartbeat,
  fail_negotiation_on_close, should_reconnect_before_send, session_ended_by_server,
  set_pending_kick, end_session_by_server, disconnect_on_kicked, kick_with, should_notify,
}

-- The end of a connection: a close or an error, with when it is handled.
pub data Closing : Type 0 where
  closes : (now : ℕ) → Text → Closing
  fails : (now : ℕ) → Text → Closing

unfoldable pub handle_closing : ClientCore → Closing → ClientCore
handle_closing s (closes now reason) = handle_connection_event now s (disconnected_event reason)
handle_closing s (fails now text) = handle_connection_event now s (error_event text)

abbrev pub handle_closings : ClientCore → List Closing → ClientCore
handle_closings s [] = s
handle_closings s (x ∷ xs) = handle_closings (handle_closing s x) xs

-- A kick is to be reported for `reason`; the observers have heard `heard`.
pub record IsPending (s : ClientCore) (reason : Text) (heard : List ConnectionEvent) : Type 0 where
  pub usable : s.pending_kick.poisoned ≡ false
  pub unasked : s.disconnect_requested ≡ false
  pub pending : s.pending_kick.value ≡ some reason
  pub heard_so : s.heard ≡ heard

-- It has been reported.
pub record IsReported (s : ClientCore) (heard : List ConnectionEvent) : Type 0 where
  pub usable : s.pending_kick.poisoned ≡ false
  pub unasked : s.disconnect_requested ≡ false
  pub nothing : s.pending_kick.value ≡ none
  pub reported : s.kick_reported ≡ true
  pub heard_so : s.heard ≡ heard

closing-IsPending :
    (s : ClientCore) (reason : Text) (heard : List ConnectionEvent) (x : Closing)
    → IsPending s reason heard
    → IsReported (handle_closing s x) (heard ++ disconnected_event reason ∷ [])
unfolding handle_closing handle_connection_event close_report stop_heartbeat
    fail_negotiation_on_close notify
closing-IsPending s reason heard (closes now text) v = record {
  usable = ground (arith, v.usable, v.pending);
  unasked = ground (arith, v.usable, v.pending, v.unasked);
  nothing = ground (arith, v.usable, v.pending);
  reported = ground (arith, v.usable, v.pending);
  heard_so = ground (arith, v.usable, v.pending, v.heard_so);
}
closing-IsPending s reason heard (fails now text) v = record {
  usable = ground (arith, v.usable, v.pending);
  unasked = ground (arith, v.usable, v.pending, v.unasked);
  nothing = ground (arith, v.usable, v.pending);
  reported = ground (arith, v.usable, v.pending);
  heard_so = ground (arith, v.usable, v.pending, v.heard_so);
}

closing-IsReported :
    (s : ClientCore) (heard : List ConnectionEvent) (x : Closing)
    → IsReported s heard
    → IsReported (handle_closing s x) heard
unfolding handle_closing handle_connection_event close_report stop_heartbeat
    fail_negotiation_on_close notify
closing-IsReported s heard (closes now text) v = record {
  usable = ground (arith, v.usable, v.nothing, v.reported, v.unasked);
  unasked = ground (arith, v.usable, v.nothing, v.reported, v.unasked);
  nothing = ground (arith, v.usable, v.nothing, v.reported, v.unasked);
  reported = ground (arith, v.usable, v.nothing, v.reported, v.unasked);
  heard_so = ground (arith, v.usable, v.nothing, v.reported, v.unasked, v.heard_so);
}
closing-IsReported s heard (fails now text) v = record {
  usable = ground (arith, v.usable, v.nothing, v.reported, v.unasked);
  unasked = ground (arith, v.usable, v.nothing, v.reported, v.unasked);
  nothing = ground (arith, v.usable, v.nothing, v.reported, v.unasked);
  reported = ground (arith, v.usable, v.nothing, v.reported, v.unasked);
  heard_so = ground (arith, v.usable, v.nothing, v.reported, v.unasked, v.heard_so);
}

closings-IsReported :
    (s : ClientCore) (heard : List ConnectionEvent) (xs : List Closing)
    → IsReported s heard
    → IsReported (handle_closings s xs) heard
closings-IsReported s heard [] v = v
closings-IsReported s heard (x ∷ xs) v =
    closings-IsReported (handle_closing s x) heard xs (closing-IsReported s heard x v)

kick_handled-IsPending :
    (s : ClientCore) (reason : Text) (heard : List ConnectionEvent)
    → IsPending s reason heard
    → IsReported (kick_handled s true) (heard ++ disconnected_event reason ∷ [])
unfolding kick_handled take_unreported_kick notify
kick_handled-IsPending s reason heard v = record {
  usable = ground (arith, v.usable, v.pending);
  unasked = ground (arith, v.usable, v.pending, v.unasked);
  nothing = ground (arith, v.usable, v.pending);
  reported = ground (arith, v.usable, v.pending);
  heard_so = ground (arith, v.usable, v.pending, v.heard_so);
}

kick_handled-IsReported :
    (s : ClientCore) (heard : List ConnectionEvent)
    → IsReported s heard
    → IsReported (kick_handled s true) heard
unfolding kick_handled take_unreported_kick notify
kick_handled-IsReported s heard v = record {
  usable = ground (arith, v.usable, v.nothing);
  unasked = ground (arith, v.usable, v.nothing, v.unasked);
  nothing = ground (arith, v.usable, v.nothing);
  reported = ground (arith, v.usable, v.nothing, v.reported);
  heard_so = ground (arith, v.usable, v.nothing, v.heard_so);
}

-- The closes before the rest of the handling, and that rest.
handled-IsReported :
    (s : ClientCore) (reason : Text) (heard : List ConnectionEvent) (xs : List Closing)
    → IsPending s reason heard
    → IsReported
        (kick_handled (handle_closings s xs) true)
        (heard ++ disconnected_event reason ∷ [])
handled-IsReported s reason heard [] v = kick_handled-IsPending s reason heard v
handled-IsReported s reason heard (x ∷ xs) v =
    let first = closing-IsPending s reason heard x v in
    kick_handled-IsReported _ _ (closings-IsReported (handle_closing s x) _ xs first)

kick_with-IsPending :
    (now : ℕ) (s : ClientCore) (reason : Text)
    → s.pending_kick.poisoned ≡ false
    → s.disconnect_requested ≡ false
    → IsPending (kick_with now s reason true) reason s.heard
unfolding kick_with set_pending_kick end_session_by_server disconnect_on_kicked
kick_with-IsPending now s reason u d = record {
  usable = ground (arith, u);
  unasked = ground (arith, d);
  pending = ground (arith, u);
  heard_so = ground arith;
}

kick_received-told :
    (now : ℕ) (s : ClientCore) (command : SystemCommand)
    → s.disconnect_requested ≡ false
    → kick_received now s command true ≡ kick_with now s (kick_reason command) true
unfolding kick_received should_notify
kick_received-told now s command d = ap (λ x. kick_with now s (kick_reason command) (not x)) d

kick_received-IsPending :
    (now : ℕ) (s : ClientCore) (command : SystemCommand)
    → s.pending_kick.poisoned ≡ false
    → s.disconnect_requested ≡ false
    → IsPending (kick_received now s command true) (kick_reason command) s.heard
kick_received-IsPending now s command u d =
    rw (kick_received-told now s command d) (kick_with-IsPending now s (kick_reason command) u d)

-- While the lock of the pending kick is not poisoned, a kick that arrives on a negotiated
-- connection, which the client has not asked to end, is heard of exactly once, with its reason,
-- whatever closes and errors of the connection are handled before and after the rest of its
-- handling.
pub kick-heard_once :
    (now : ℕ) (s : ClientCore) (command : SystemCommand) (before after : List Closing)
    → s.pending_kick.poisoned ≡ false
    → s.disconnect_requested ≡ false
    → let t = kick_handled (handle_closings (kick_received now s command true) before) true in
      (handle_closings t after).heard ≡ s.heard ++ disconnected_event (kick_reason command) ∷ []
kick-heard_once now s command before after u d =
    (closings-IsReported _ _ after (
      handled-IsReported _ (kick_reason command) s.heard before
        (kick_received-IsPending now s command u d))).heard_so

-- What the closes and the handling of a kick leave alone.
closing-session :
    (s : ClientCore) (x : Closing)
    → (handle_closing s x).session_ended_by_server ≡ s.session_ended_by_server
unfolding handle_closing handle_connection_event close_report stop_heartbeat
    fail_negotiation_on_close notify
closing-session s (closes now text) = ground arith
closing-session s (fails now text) = ground arith

closings-session :
    (s : ClientCore) (xs : List Closing)
    → (handle_closings s xs).session_ended_by_server ≡ s.session_ended_by_server
closings-session s [] = refl
closings-session s (x ∷ xs) = closings-session (handle_closing s x) xs ∙ closing-session s x

kick_handled-session :
    (s : ClientCore) (told : Bool)
    → (kick_handled s told).session_ended_by_server ≡ s.session_ended_by_server
unfolding kick_handled take_unreported_kick notify
kick_handled-session s told = ground arith

kick_with-session :
    (now : ℕ) (s : ClientCore) (reason : Text)
    → s.session_ended_by_server.poisoned ≡ false
    → ends_session reason ≡ true
    → is_some (session_ended_by_server (kick_with now s reason true)) ≡ true
unfolding kick_with set_pending_kick end_session_by_server disconnect_on_kicked
    session_ended_by_server
kick_with-session now s reason u e = ground (arith, u, e)

ended_stays :
    (s t : ClientCore)
    → t.session_ended_by_server ≡ s.session_ended_by_server
    → session_ended_by_server t ≡ session_ended_by_server s
unfolding session_ended_by_server
ended_stays s t e = rw e refl

-- While the lock of the ended session is not poisoned, after a kick that ends the session, on a
-- negotiated connection that the client has not asked to end, no send connects again, whatever
-- closes and errors are handled before and after the rest of its handling and however the client
-- is configured.
pub kick-no_reconnect :
    (now : ℕ) (s : ClientCore) (command : SystemCommand) (before after : List Closing)
    (reconnect_on_send : Bool) (max_attempts : Option ℕ)
    → s.session_ended_by_server.poisoned ≡ false
    → s.disconnect_requested ≡ false
    → ends_session (kick_reason command) ≡ true
    → let t = kick_handled (handle_closings (kick_received now s command true) before) true in
      should_reconnect_before_send false (handle_closings t after) reconnect_on_send max_attempts
      ≡ false
unfolding should_reconnect_before_send
kick-no_reconnect now s command before after reconnect_on_send max_attempts u d e =
    let k = kick_received now s command true in
    let t = kick_handled (handle_closings k before) true in
    let same = ended_stays k (handle_closings t after) (
      closings-session t after
      ∙ kick_handled-session (handle_closings k before) true
      ∙ closings-session k before) in
    let ended : is_some (session_ended_by_server k) ≡ true =
      rw (kick_received-told now s command d) (kick_with-session now s (kick_reason command) u e) in
    ground (arith, same, ended)

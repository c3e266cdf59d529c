-- ===== src/Client/Tests.antt =====
-- A kick by a new device, on a concrete client.
use flare_core.Base.{◌≡◌, refl, true, false, [], ◌∷◌, ◌++◌, none, some, List}
use flare_core.Base.Chars.{codes}
use flare_core.Kick.{
  SystemCommand, kick_reason, ends_session, device_conflict_kicked, device_conflict_reason,
  kick_reason-device_conflict_kicked,
}
use flare_core.Client.{mutex, state_new, set_connected}
use flare_core.Client.Session.{
  ClientCore, disconnected_event, kick_received, kick_handled, should_reconnect_before_send,
}
use flare_core.Client.Reports.{
  Closing, closes, fails, handle_closings, kick-heard_once, kick-no_reconnect,
}

abbrev online : ClientCore
online = record {
  state_manager = set_connected 9 (state_new 1);
  heartbeat_manager = mutex true;
  client_connection = mutex (some 7);
  pending_map = codes "m1" ∷ [];
  negotiation_completed = true;
  negotiation_failure = mutex none;
  disconnect_requested = false;
  server_shutdown = false;
  session_ended_by_server = mutex none;
  pending_kick = mutex none;
  kick_reported = false;
  heard = [];
  closed = [];
}

abbrev command : SystemCommand
command = record (device_conflict_kicked (codes "IOS") (codes "phone")) {
  message = device_conflict_reason;
}

abbrev ends : List Closing
ends = closes 20 (codes "gone") ∷ fails 21 (codes "reset") ∷ []

kick-heard_once_example :
    let t = kick_handled (handle_closings (kick_received 20 online command true) ends) true in
    (handle_closings t ends).heard ≡ [] ++ disconnected_event (kick_reason command) ∷ []
kick-heard_once_example = kick-heard_once 20 online command ends ends refl refl

command-ends : ends_session (kick_reason command) ≡ true
command-ends =
    (kick_reason-device_conflict_kicked (codes "IOS") (codes "phone") device_conflict_reason).1

kick-no_reconnect_example :
    let t = kick_handled (handle_closings (kick_received 20 online command true) ends) true in
    should_reconnect_before_send false (handle_closings t ends) true none ≡ false
kick-no_reconnect_example =
    kick-no_reconnect 20 online command ends ends true none refl refl command-ends

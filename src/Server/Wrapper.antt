-- ===== src/Server/Wrapper.antt =====
-- `ServerMessageWrapper` of src/server/events/event_wrapper.rs, with the handler of src/server/events/
-- handler.rs as an argument. What the source spawns is a task, run later by `run_task`; what it awaits is
-- run at once.
pub mod Order
use flare_core.Base.{
  ℕ, List, [], ◌∷◌, ◌++◌, Option, none, some, Text, text_eq, nat_beq, if◌then◌else◌, Result, ok,
  err,
}
use flare_core.Base.Chars.{codes}
use flare_core.Base.Dict.{Dict, insert}
use flare_core.Connection.Manager.Lifecycle.{remove_connection}
use flare_core.Connection.Manager.Ops.{update_connection_active, mark_negotiation_confirmed}
use flare_core.Connection.Manager.Sending.{Sender}
use flare_core.Connection.Manager.Sending.Frames.{send_frame_to}
use flare_core.Device.Registry.Defs as Devices
use flare_core.Errors.{FlareError, general_error, display}
use flare_core.Kick.{as_bytes}
use flare_core.Negotiation.Connect.{Metadata}
use flare_core.Parser.{Bytes}
use flare_core.Server.Frames.{
  Frame, Command, PayloadCommand, NotificationCommand, CustomCommand, system, payload, notification,
  custom, connect_type, ping_type, pong_type, event_type, negotiation_ready_type,
  frame_with_system_command, frame_with_payload_command, pong, ack_message, type_of, ack_type,
}
use flare_core.Server.World.{World, Library, Environment, connections, with_connections}

-- What waits for a turn: an answer, a sign of life, a confirmation, a command that was put off, a device
-- to forget, the end of a connection.
pub data Task : Type 0 where
  respond : Frame → Text → Task
  refresh confirm : Text → Task
  system_arrived : Frame → ℕ → Text → Task
  event_arrived : Frame → Text → Task
  custom_arrived : Frame → CustomCommand → Text → Task
  forget_device disconnected : Text → Task
  failed : Text → Text → Task

-- The world with the write queues and the tasks.
pub record Desk (S : Type 0) : Type 0 where
  pub world : World S
  pub queues : Dict ℕ (List Bytes)
  pub tasks : List Task

abbrev pub Answer : Type 0 → Type 0
Answer S = World S → World S × Result FlareError (Option Frame)

-- `ServerEventHandler`, and what runs a pipeline, whose answer is not used.
pub record EventHandler (S : Type 0) : Type 0 where
  pub handle_ping : Frame → Text → Answer S
  pub handle_pong : Frame → Text → Answer S
  pub handle_system_event : Frame → Text → Answer S
  pub handle_message : PayloadCommand → Text → Answer S
  pub handle_event : PayloadCommand → Text → Answer S
  pub handle_ack : PayloadCommand → Text → Answer S
  pub handle_data : PayloadCommand → Text → Answer S
  pub handle_notification_command : NotificationCommand → Text → Answer S
  pub handle_custom_command : CustomCommand → Text → Answer S
  pub on_disconnect : Text → World S → World S
  pub on_error : Text → Text → World S → World S
  pub run_pipeline : ℕ → Frame → Text → World S → World S
  pub now : World S → ℕ

abbrev pub with_world : {S : Type 0} → Desk S → World S → Desk S
with_world d w = record d { world = w }

abbrev pub spawn : {S : Type 0} → Desk S → Task → Desk S
spawn d t = record d { tasks = d.tasks ++ t ∷ [] }

abbrev pub message_type : ℕ
message_type = 1

abbrev pub payload_event_type : ℕ
payload_event_type = 2

abbrev pub data_type : ℕ
data_type = 4

module _ {S : Type 0} (l : Library) (env : Environment S) (handler : EventHandler S) where
  abbrev pub error_metadata : FlareError → Metadata
  unfolding insert as_bytes display
  error_metadata e =
      insert (codes "error_message") (as_bytes (display e))
        (insert (codes "error") (as_bytes (codes "true")) [])

  -- The handler's own answer, or an ACK of the message, which says so if the handler failed.
  unfoldable pub response_frame : Text → World S → Result FlareError (Option Frame) → Frame
  unfolding frame_with_payload_command ack_message
  response_frame id w (ok (some response)) = response
  response_frame id w (ok none) =
      frame_with_payload_command (env.generate_message_id w) (ack_message id [])
  response_frame id w (err e) =
      frame_with_payload_command (env.generate_message_id w) (ack_message id (error_metadata e))

  abbrev pub answered : Desk S → Text → Text → World S × Result FlareError (Option Frame) → Desk S
  unfolding response_frame
  answered d message_id id (w, r) =
      spawn (with_world d w) (respond (response_frame message_id w r) id)

  unfoldable pub handle_and_send_response : Answer S → Text → Text → Desk S → Desk S
  unfolding response_frame
  handle_and_send_response answer message_id id d = answered d message_id id (answer d.world)

  abbrev pub pinged : Desk S → Text → World S × Result FlareError (Option Frame) → Desk S
  unfolding frame_with_system_command pong
  pinged d id (w, ok (some response)) = spawn (with_world d w) (respond response id)
  pinged d id (w, _) =
      spawn (with_world d w)
        (respond (frame_with_system_command (env.generate_message_id w) pong) id)

  unfoldable pub handle_system_command : Frame → ℕ → Text → Desk S → Desk S
  unfolding frame_with_system_command pong
  handle_system_command frame type id d =
      if nat_beq type ping_type
      then pinged (spawn d (refresh id)) id (handler.handle_ping frame id d.world)
      else if nat_beq type pong_type
      then spawn (with_world d (handler.handle_pong frame id d.world).0) (refresh id)
      else if nat_beq type event_type
      then spawn (spawn d (refresh id)) (event_arrived frame id)
      else if nat_beq type negotiation_ready_type
      then spawn (spawn d (refresh id)) (confirm id)
      else d

  -- The handler's function for a type; none for the one that says nothing. Any other is no type at all.
  abbrev pub handler_for : PayloadCommand → Text → Result FlareError (Option (Answer S))
  handler_for c id =
      if nat_beq c.type message_type
      then ok (some (handler.handle_message c id))
      else if nat_beq c.type payload_event_type
      then ok (some (handler.handle_event c id))
      else if nat_beq c.type ack_type
      then ok (some (handler.handle_ack c id))
      else if nat_beq c.type data_type
      then ok (some (handler.handle_data c id))
      else if nat_beq c.type 0
      then ok none
      else err (general_error (codes "Unknown message type"))

  abbrev pub handled :
      PayloadCommand → Text → Result FlareError (Option (Answer S)) → Desk S → Desk S
  unfolding handle_and_send_response
  handled c id (ok (some answer)) d = handle_and_send_response answer c.message_id id d
  handled c id _ d = d

  -- An error is only logged.
  unfoldable pub handle_message_command : PayloadCommand → Text → Desk S → Desk S
  unfolding handle_and_send_response
  handle_message_command c id d = handled c id (handler_for c id) d

  unfoldable pub handle_notification_command : Frame → NotificationCommand → Text → Desk S → Desk S
  unfolding handle_and_send_response
  handle_notification_command frame c id d =
      handle_and_send_response (handler.handle_notification_command c id) frame.message_id id d

  unfoldable pub handle_custom_command : Frame → CustomCommand → Text → Desk S → Desk S
  unfolding handle_and_send_response
  handle_custom_command frame c id d =
      handle_and_send_response (handler.handle_custom_command c id) frame.message_id id
        (spawn d (refresh id))

  -- System and custom commands are put off; payloads and notifications are handled at once.
  abbrev pub routed : Frame → Option Command → Text → Desk S → Desk S
  unfolding handle_message_command handle_notification_command
  routed frame none id d = d
  routed frame (some (system c format compression encryption)) id d =
      if nat_beq c.type connect_type then d else spawn d (system_arrived frame c.type id)
  routed frame (some (payload c)) id d = handle_message_command c id d
  routed frame (some (notification c)) id d = handle_notification_command frame c id d
  routed frame (some (custom c)) id d = spawn d (custom_arrived frame c id)

  unfoldable pub handle_frame : Frame → Text → Desk S → Desk S
  unfolding handle_message_command handle_notification_command
  handle_frame frame id d = routed frame frame.command id d

  unfoldable pub on_disconnect : Text → Desk S → Desk S
  unfolding remove_connection
  on_disconnect id d =
      let w = handler.on_disconnect id d.world in
      spawn (with_world d (with_connections w (remove_connection l.hashers (connections w) id).0))
        (forget_device id)

  abbrev pub sent : Desk S → Frame → Text → Sender → Desk S
  sent d frame id s = record d { world = with_connections d.world s.manager; queues = s.queues }

  abbrev pub sender_of : Desk S → Sender
  sender_of d = record { manager = connections d.world; queues = d.queues }

  unfoldable pub run_task : Task → Desk S → Desk S
  unfolding send_frame_to update_connection_active mark_negotiation_confirmed handle_system_command
      handle_and_send_response handle_custom_command on_disconnect Devices.remove_connection
  run_task (respond frame id) d =
      sent d frame id
        (send_frame_to l.hashers l.codecs type_of (handler.now d.world) (sender_of d) id frame
          none).0
  run_task (refresh id) d = with_world d (
      with_connections d.world
        (update_connection_active l.hashers (connections d.world) (handler.now d.world) id).0)
  run_task (confirm id) d =
      with_world d
        (with_connections d.world (mark_negotiation_confirmed l.hashers (connections d.world) id).0)
  run_task (system_arrived frame type id) d = handle_system_command frame type id d
  run_task (event_arrived frame id) d =
      handle_and_send_response (handler.handle_system_event frame id) frame.message_id id d
  run_task (custom_arrived frame c id) d = handle_custom_command frame c id d
  run_task (forget_device id) d =
      let w = d.world in
      with_world d (record w {
        server = record w.server { devices = (Devices.remove_connection w.server.devices id).0 };
      })
  run_task (disconnected id) d = on_disconnect id d
  run_task (failed id error) d = on_disconnect id (with_world d (handler.on_error id error d.world))

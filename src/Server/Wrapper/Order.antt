-- ===== src/Server/Wrapper/Order.antt =====
-- Proofs on src/server/events/event_wrapper.rs: what is handled at once is handled in order.
use flare_core.Base.{
  List, [], ◌∷◌, ◌++◌, Option, none, some, Text, nat_beq, if◌then◌else◌, Result, ok,
}
use flare_core.Errors.{FlareError}
use flare_core.Server.Frames.{Frame, Command, system, payload, notification, custom, connect_type}
use flare_core.Server.World.{World, Library, Environment}
use flare_core.Server.Wrapper.{
  Task, respond, system_arrived, custom_arrived, Desk, Answer, EventHandler, response_frame,
  handler_for, handle_notification_command, handle_frame,
}

module _ {S : Type 0} (l : Library) (env : Environment S) (handler : EventHandler S)
    (id : Text) where
  -- What a frame does: the world that it makes of this one, and the tasks that it leaves.
  abbrev Effect : Type 0
  Effect = World S × List Task

  abbrev nothing : World S → Effect
  nothing w = (w, [])

  abbrev replied : Text → World S × Result FlareError (Option Frame) → Effect
  replied message_id (w, r) = (w, respond (response_frame l env handler message_id w r) id ∷ [])

  abbrev served : Text → Result FlareError (Option (Answer S)) → World S → Effect
  served message_id (ok (some answer)) w = replied message_id (answer w)
  served message_id _ w = nothing w

  -- A message and a notification are answered by the application now; a system command and a custom one
  -- wait for their turn.
  abbrev pub effect : Frame → Option Command → World S → Effect
  effect frame none w = nothing w
  effect frame (some (system c format compression encryption)) w =
      if nat_beq c.type connect_type then nothing w else (w, system_arrived frame c.type id ∷ [])
  effect frame (some (payload c)) w = served c.message_id (handler_for l env handler c id) w
  effect frame (some (notification c)) w =
      replied frame.message_id (handler.handle_notification_command c id w)
  effect frame (some (custom c)) w = (w, custom_arrived frame c id ∷ [])

  -- The effects of frames, one after the other.
  abbrev pub effects : List Frame → World S → Effect
  effects [] w = nothing w
  effects (frame ∷ frames) w =
      let (v, tasks) = effect frame frame.command w in
      let (u, later) = effects frames v in (u, tasks ++ later)

  abbrev pub handle_frames : List Frame → Desk S → Desk S
  handle_frames [] d = d
  handle_frames (frame ∷ frames) d = handle_frames frames (handle_frame l env handler frame id d)

  abbrev pub after : Desk S → Effect → Desk S
  after d (w, tasks) = record { world = w; queues = d.queues; tasks = d.tasks ++ tasks }

-- ===== src/Server/Observer.antt =====
-- `ConnectionHandlerObserverAdapter` of src/server/events/observer.rs: a connection's events, its bounded
-- inbound queue, and the one task that takes the frames from it.
pub mod Removed
pub mod Inbound
use flare_core.Base.{
  ℕ, Bool, true, false, not, ◌&&◌, List, [], ◌∷◌, ◌++◌, Option, none, some, Text, text_eq,
  if◌then◌else◌, Result, ok, err, leb, length,
}
use flare_core.Connection.Info.{ConnectionInfo, MessageParser, parser_new, pre_negotiation_parser}
use flare_core.Connection.Manager.Lifecycle.{get_connection, remove_connection}
use flare_core.Connection.Manager.Ops.{update_connection_active, mark_negotiation_confirmed}
use flare_core.Errors.{FlareError}
use flare_core.Negotiation.Algorithms.{is_unencrypted, encryption_as_str}
use flare_core.Parser.{Bytes, ParseError, parse, parse_with_fallback}
use flare_core.Server.Frames.{Frame, is_connect_message, is_negotiation_ready_message}
use flare_core.Server.World.{World, ServerCore, Library, Environment, connections, with_connections}
use flare_core.Server.Connect.Completion.{handle_connect_complete}
use flare_core.Server.Wrapper.{Desk, EventHandler, Task, failed, spawn, with_world, handle_frame}

abbrev pub is_frame : (Frame → Bool) → Result ParseError Frame → Bool
is_frame test (ok frame) = test frame
is_frame test (err e) = false

abbrev pub is_none {ℓ} : {A : Type ℓ} → Option A → Bool
is_none none = true
is_none (some a) = false

module _ {S : Type 0} (l : Library) (env : Environment S) (server_core : Option ServerCore)
    (handler : EventHandler S) where
  unfoldable pub is_pre_negotiation_connect : Bytes → Bool
  unfolding parse is_connect_message pre_negotiation_parser
  is_pre_negotiation_connect bytes =
      is_frame is_connect_message (parse l.codecs pre_negotiation_parser bytes)

  unfoldable pub found : Text → Desk S → Option (ℕ × ConnectionInfo)
  unfolding get_connection
  found id d = get_connection l.hashers (connections d.world) id

  -- A connection whose set-up fails is removed.
  abbrev pub set_up : Text → Desk S → World S × Result FlareError (Unit {0}) → Desk S
  unfolding remove_connection
  set_up id d (w, ok _) = with_world d w
  set_up id d (w, err e) =
      with_world d (with_connections w (remove_connection l.hashers (connections w) id).0)

  abbrev pub connect_with :
      Option (ℕ × ConnectionInfo) → Option ServerCore → Frame → Text → Desk S → Desk S
  unfolding handle_connect_complete
  connect_with (some (handle, info)) (some core) frame id d =
      set_up id d (handle_connect_complete l env core frame id handle d.world)
  connect_with _ _ frame id d = d

  unfoldable pub handle_connect_message : Frame → Text → Desk S → Desk S
  unfolding handle_connect_complete
  handle_connect_message frame id d = connect_with (found id d) server_core frame id d

  abbrev pub parsed_early : Result ParseError Frame → Text → Desk S → Desk S
  unfolding is_connect_message handle_connect_message handle_frame
  parsed_early (err e) id d = d
  parsed_early (ok frame) id d =
      if is_connect_message frame
      then handle_connect_message frame id d
      else handle_frame l env handler frame id d

  unfoldable pub handle_pre_negotiation_message : Bytes → Text → Desk S → Desk S
  unfolding is_connect_message handle_connect_message handle_frame parse pre_negotiation_parser
  handle_pre_negotiation_message bytes id d =
      parsed_early (parse l.codecs pre_negotiation_parser bytes) id d

  -- The pipeline's answer is not used, and its failure stops nothing.
  abbrev pub piped : Option ℕ → Frame → Text → Desk S → Desk S
  piped none frame id d = d
  piped (some pipeline) frame id d = with_world d (handler.run_pipeline pipeline frame id d.world)

  abbrev pub parsed_late : Result ParseError Frame → ConnectionInfo → Text → Desk S → Desk S
  unfolding handle_frame
  parsed_late (err e) info id d = d
  parsed_late (ok frame) info id d =
      handle_frame l env handler frame id (piped info.cached_pipeline frame id d)

  abbrev pub cached_or_new : ConnectionInfo → MessageParser
  unfolding parser_new
  cached_or_new info = elim info.cached_parser [
    | some p ↦ p
    | none ↦ parser_new info.serialization_format info.compression info.encryption
  ]

  -- A NEGOTIATION_READY confirms the negotiation; until then the parser is lenient.
  unfoldable pub handle_negotiated_message : Bytes → ConnectionInfo → Text → Desk S → Desk S
  unfolding handle_frame parse parse_with_fallback pre_negotiation_parser
      is_negotiation_ready_message mark_negotiation_confirmed is_unencrypted encryption_as_str
  handle_negotiated_message bytes info id d =
      if is_frame is_negotiation_ready_message (parse l.codecs pre_negotiation_parser bytes)
      then with_world d (
          with_connections d.world
            (mark_negotiation_confirmed l.hashers (connections d.world) id).0)
      else if not (is_unencrypted info.encryption)
          && not (l.encryptors (encryption_as_str info.encryption))
      then d
      else parsed_late
          (parse_with_fallback l.codecs (cached_or_new info) bytes (not info.negotiation_confirmed))
          info id d

  abbrev pub by_state : Option (ℕ × ConnectionInfo) → Bytes → Text → Desk S → Desk S
  unfolding handle_negotiated_message handle_pre_negotiation_message
  by_state none bytes id d = handle_pre_negotiation_message bytes id d
  by_state (some (handle, info)) bytes id d =
      if info.negotiation_completed
      then handle_negotiated_message bytes info id d
      else handle_pre_negotiation_message bytes id d

  unfoldable pub refreshed : Text → Desk S → Desk S
  unfolding update_connection_active
  refreshed id d = with_world d (
      with_connections d.world
        (update_connection_active l.hashers (connections d.world) (handler.now d.world) id).0)

  -- What is left in the queue of a removed connection is dropped, but for a CONNECT.
  unfoldable pub handle_message_event : Bytes → Text → Desk S → Desk S
  unfolding is_pre_negotiation_connect handle_negotiated_message handle_pre_negotiation_message
      update_connection_active get_connection
  handle_message_event bytes id d =
      if is_none (found id d) && not (is_pre_negotiation_connect bytes)
      then d
      else by_state (found id (refreshed id d)) bytes id (refreshed id d)

abbrev pub inbound_queue_capacity : ℕ
inbound_queue_capacity = 1024

pub data ConnectionEvent : Type 0 where
  connected : ConnectionEvent
  message : Bytes → ConnectionEvent
  disconnected error : Text → ConnectionEvent

-- A connection's inbound queue, beside the desk.
pub record Adapter (S : Type 0) : Type 0 where
  pub desk : Desk S
  pub inbound : List Bytes

-- A full queue drops the frame.
unfoldable pub on_event : {S : Type 0} → Text → ConnectionEvent → Adapter S → Adapter S
on_event id connected a = a
on_event id (message bytes) a =
    if leb inbound_queue_capacity (length a.inbound)
    then a
    else record a { inbound = a.inbound ++ bytes ∷ [] }
on_event id (ConnectionEvent.disconnected reason) a = record a {
  desk = spawn a.desk (Task.disconnected id);
}
on_event id (error text) a = record a { desk = spawn a.desk (failed id text) }

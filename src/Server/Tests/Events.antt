-- ===== src/Server/Tests/Events.antt =====
-- The frames after a refused connection's, and frames in order, on concrete inputs.
use flare_core.Base.{ℕ, ◌≡◌, refl, List, [], ◌∷◌, ◌++◌, none, some, ok, err}
use flare_core.Base.Dict.{insert, get}
use flare_core.Connection.Info.{
  ConnectionInfo, update_active, owner, info_new, pre_negotiation_parser,
}
use flare_core.Connection.Manager.Lifecycle.{
  remove_connection, add_connection_with_limit, after_reserve, insert_reserved,
}
use flare_core.Connection.Manager.State.{with_write_queue_limits, reserve_connection_slot}
use flare_core.Connection.Shards.{shard, write}
use flare_core.Parser.{
  Codecs, parse, parse_with_fallback, decrypt_data_with_fallback, decompress_data_with_fallback,
  parse_decompressed_with_fallback,
}
use flare_core.Server.Frames.{payload, custom, Frame, is_connect_message}
use flare_core.Server.World.{World, connections, with_connections}
use flare_core.Server.Connect.Completion.{rejected, handle_connect_complete}
use flare_core.Server.Wrapper.{Desk, EventHandler, Answer, with_world}
use flare_core.Base.Chars.{codes}
use flare_core.Server.Observer.{found, refreshed}
use flare_core.Server.Observer.Removed.{Happening, frame, other, happened, happened-refused}
use flare_core.Server.Tests.{
  App, codecs, serializer, library, environment, core, c1, world, world-IsSound, connect, refused,
  environment-IsKeeping, entry,
}

abbrev nothing : Answer App
nothing w = (w, ok none)

abbrev handler : EventHandler App
handler = record {
  handle_ping = λ f id. nothing;
  handle_pong = λ f id. nothing;
  handle_system_event = λ f id. nothing;
  handle_message = λ c id. nothing;
  handle_event = λ c id. nothing;
  handle_ack = λ c id. nothing;
  handle_data = λ c id. nothing;
  handle_notification_command = λ c id. nothing;
  handle_custom_command = λ c id. nothing;
  on_disconnect = λ id w. w;
  on_error = λ id text w. w;
  run_pipeline = λ p f id w. w;
  now = λ w. 6;
}

abbrev desk : Desk App
desk = record { world = world; queues = []; tasks = [] }

abbrev busy : Desk App → Desk App
busy d = record d { queues = (8, []) ∷ [] }

abbrev afterwards : List (Happening App)
afterwards = frame (5 ∷ []) ∷ other busy ∷ frame [] ∷ []

-- Whatever arrives is read as a CONNECT without a token.
abbrev knocking : Codecs Frame
knocking = record codecs {
  auto_detect =
      λ bytes. record { serialize = serializer.serialize; deserialize = λ b. ok (connect []) } ∷ [];
}

abbrev awake : ConnectionInfo
unfolding update_active
awake = update_active 6 entry.info

abbrev left : World App
unfolding handle_connect_complete refreshed
left =
    (handle_connect_complete (library knocking) environment core (connect []) c1 7
      (refreshed (library knocking) environment (some core) handler c1 desk).world).0

c1_found :
    found
      (library knocking)
      environment
      (some core)
      handler
      c1
      (refreshed (library knocking) environment (some core) handler c1 desk)
    ≡ some (7, awake)
unfolding found refreshed awake update_active shard add_connection_with_limit after_reserve
    reserve_connection_slot with_write_queue_limits insert_reserved get owner write insert
c1_found = refl

knock : parse (library knocking).codecs pre_negotiation_parser [] ≡ ok (connect [])
unfolding parse parse_with_fallback decrypt_data_with_fallback pre_negotiation_parser
    decompress_data_with_fallback parse_decompressed_with_fallback
knock = refl

turned_away :
    handle_connect_complete
      (library knocking)
      environment
      core
      (connect [])
      c1
      7
      (refreshed (library knocking) environment (some core) handler c1 desk).world
    ≡ (left, err refused)
unfolding handle_connect_complete left rejected
turned_away = refl

happened-refused_example :
    let gone = with_world desk (
      with_connections left
        (remove_connection (library knocking).hashers (connections left) c1).0) in
    (found (library knocking) environment (some core) handler c1 gone ≡ none)
    × (happened (library knocking) environment (some core) handler c1 (frame [] ∷ afterwards) desk
        ≡ happened (library knocking) environment (some core) handler c1 (other busy ∷ []) gone)
unfolding is_connect_message awake info_new found
happened-refused_example =
    happened-refused (library knocking) environment (some core) handler c1 core
      environment-IsKeeping afterwards desk [] (connect []) 7 awake left refused refl world-IsSound
      knock refl c1_found refl turned_away ((λ d q. q), tt)

-- The application notes the messages that it handles.
abbrev noting : EventHandler App
noting = record handler {
  handle_message = λ c id w. (record w { app = w.app ++ (c.seq, c.payload) ∷ [] }, ok none);
}

abbrev message_frame : ℕ → Frame
message_frame n = record {
  message_id = codes "m";
  command = some (
      payload
        (record { type = 1; message_id = codes "m"; payload = n ∷ []; metadata = []; seq = n }));
}

abbrev custom_frame : Frame
custom_frame = record {
  message_id = codes "c";
  command = some (custom (record { name = codes "x"; body = []; metadata = [] }));
}

abbrev three_frames : List Frame
three_frames = message_frame 1 ∷ custom_frame ∷ message_frame 2 ∷ []

-- ===== src/Connection/Manager/Sending/Frames.antt =====
-- The sends and broadcasts of manager/trait_impl.rs, with `send_frame_to_snapshot` and
-- `fanout_serialized_frame_to_auth_snapshots` of manager/ops.rs.
use mathlib.Core.Option as Option
use flare_core.Base.{
  ℕ, if◌then◌else◌, Bool, List, [], ◌∷◌, Option, none, some, Text, text_eq, ◌||◌, Result, ok, err,
}
use flare_core.Base.Dict.{get}
use flare_core.Connection.Info.{MessageParser}
use flare_core.Connection.Manager.State.{Hashers, ConnectionEntry}
use flare_core.Connection.Manager.State as State
use flare_core.Connection.Manager.Gate.{
  SendError, serialize_frame_for_connection, frame_allowed_before_auth, unverified,
}
use flare_core.Connection.Manager.Lifecycle.{id_shard}
use flare_core.Connection.Manager.Ops.{update_connection_active}
use flare_core.Connection.Manager.Snapshots.{
  with_info, connection_snapshots_for_ids, connection_snapshots, connection_snapshots_except,
  connection_auth_snapshots_for_ids, connection_auth_snapshots, connection_auth_snapshots_except,
  connection_handles_for_ids, connection_handles, connection_handles_except,
}
use flare_core.Connection.Manager.Users.{get_user_connections}
use flare_core.Connection.Manager.Sending.{
  Sender, QueueError, Snapshot, try_enqueue, isolated, deliver, deliver_encoded, and_id,
  fanout_frame_to_snapshots, refreshed_with,
}
use flare_core.Device.Registry.Defs.{DeviceOwner}
use flare_core.Parser.{Bytes, Codecs, ParseError, serialize}

pub data SendFailure : Type 0 where
  missing : Text → SendFailure
  not_encoded : SendError → SendFailure
  not_queued : QueueError → SendFailure
  not_refreshed : State.FlareError → SendFailure

abbrev pub Sent : Type 0
Sent = Sender × Result SendFailure (Unit {0})

module _ (h : Hashers) where
  unfoldable pub get_connection_snapshot : Sender → Text → Option Snapshot
  get_connection_snapshot s id =
      if (id_shard h s.manager id).poisoned
      then none
      else Option.map (with_info id) (get id (id_shard h s.manager id).entries)

  -- `send_to_connection_handle`, with the queue it writes to.
  abbrev pub enqueued : Text → ℕ → Sender × Result QueueError (Unit {0}) → Sent
  enqueued id writer (s, ok _) = (s, ok tt)
  enqueued id writer (s, err e) = ((isolated h id writer (s, err e)).0, err (not_queued e))

  abbrev pub sent_to : Sender → Text → Option Snapshot → Bytes → Sent
  unfolding try_enqueue
  sent_to s id none bytes = (s, err (missing id))
  sent_to s id (some (_, writer, info)) bytes = enqueued id writer (try_enqueue s writer bytes)

  unfoldable pub send_to_connection : Sender → Text → Bytes → Sent
  unfolding get_connection_snapshot try_enqueue
  send_to_connection s id bytes = sent_to s id (get_connection_snapshot s id) bytes

  -- The loop of `send_to_user`, `broadcast` and `broadcast_except`.
  unfoldable pub send_to_handles : Sender → List (Text × ℕ) → Bytes → Sender
  unfolding deliver
  send_to_handles s [] bytes = s
  send_to_handles s ((id, writer) ∷ rest) bytes =
      send_to_handles (deliver h s id writer bytes).0 rest bytes

  unfoldable pub send_to_user : Sender → DeviceOwner → Bytes → Sender
  unfolding send_to_handles connection_handles_for_ids get_user_connections
  send_to_user s o bytes =
      send_to_handles s
        (connection_handles_for_ids h s.manager (get_user_connections h s.manager o)) bytes

  unfoldable pub broadcast : Sender → Bytes → Sender
  unfolding send_to_handles connection_handles
  broadcast s bytes = send_to_handles s (connection_handles s.manager) bytes

  unfoldable pub broadcast_except : Sender → Bytes → Text → Sender
  unfolding send_to_handles connection_handles_except
  broadcast_except s bytes excluded =
      send_to_handles s (connection_handles_except s.manager excluded) bytes

abbrev pub AuthSnapshot : Type 0
AuthSnapshot = Text × ℕ × Bool

abbrev pub settled : Sender → State.Outcome (Unit {0}) → Sent
settled s (m, ok _) = (record s { manager = m }, ok tt)
settled s (m, err e) = (record s { manager = m }, err (not_refreshed e))

module _ {F : Type 0} (h : Hashers) (c : Codecs F) (system_type : F → Option ℕ) where
  abbrev pub refreshed_after : ℕ → Text → Sent → Sent
  unfolding update_connection_active
  refreshed_after now id (s, err e) = (s, err e)
  refreshed_after now id (s, ok _) = settled s (update_connection_active h s.manager now id)

  abbrev pub sent_encoded : Sender → Text → ℕ → Result SendError Bytes → Sent
  unfolding try_enqueue
  sent_encoded s id writer (err e) = (s, err (not_encoded e))
  sent_encoded s id writer (ok bytes) = enqueued h id writer (try_enqueue s writer bytes)

  abbrev pub send_frame_to_snapshot : ℕ → Sender → Snapshot → F → Option MessageParser → Sent
  unfolding try_enqueue serialize_frame_for_connection update_connection_active
  send_frame_to_snapshot now s (id, writer, info) frame parser =
      refreshed_after now id (
        sent_encoded s id writer
          (serialize_frame_for_connection c system_type id info frame parser))

  abbrev pub sent_if_found : ℕ → Sender → Text → Option Snapshot → F → Option MessageParser → Sent
  unfolding try_enqueue serialize_frame_for_connection update_connection_active
  sent_if_found now s id none frame parser = (s, err (missing id))
  sent_if_found now s id (some x) frame parser = send_frame_to_snapshot now s x frame parser

  unfoldable pub send_frame_to : ℕ → Sender → Text → F → Option MessageParser → Sent
  unfolding try_enqueue serialize_frame_for_connection update_connection_active
      get_connection_snapshot
  send_frame_to now s id frame parser =
      sent_if_found now s id (get_connection_snapshot h s id) frame parser

  abbrev pub allowed_for : Text → Bool → F → Bytes → Result SendError Bytes
  unfolding frame_allowed_before_auth
  allowed_for id authenticated frame bytes =
      if authenticated || frame_allowed_before_auth c system_type frame
      then ok bytes
      else err (unverified id)

  unfoldable pub fanout_serialized_frame_to_auth_snapshots :
      Sender → List AuthSnapshot → F → Bytes → Sender × List Text
  unfolding deliver_encoded frame_allowed_before_auth
  fanout_serialized_frame_to_auth_snapshots s [] frame bytes = (s, [])
  fanout_serialized_frame_to_auth_snapshots s ((id, writer, authenticated) ∷ rest) frame bytes =
      let (t, queued) = deliver_encoded h s id writer (allowed_for id authenticated frame bytes) in
      let (u, ids) = fanout_serialized_frame_to_auth_snapshots t rest frame bytes in
      (u, and_id h c system_type id ids queued)

  abbrev pub once_encoded : ℕ → Sender → List AuthSnapshot → F → Result ParseError Bytes → Sender
  unfolding fanout_serialized_frame_to_auth_snapshots
  once_encoded now s snapshots frame (err e) = s
  once_encoded now s snapshots frame (ok bytes) =
      refreshed_with h c system_type now
        (fanout_serialized_frame_to_auth_snapshots s snapshots frame bytes)

  -- What `send_frame_to_user`, `broadcast_frame` and `broadcast_frame_except` share: with a parser the
  -- frame is encoded once, or else for each connection.
  unfoldable pub send_frame_to_snapshots :
      ℕ → Sender → List AuthSnapshot → List Snapshot → F → Option MessageParser → Sender
  unfolding fanout_frame_to_snapshots fanout_serialized_frame_to_auth_snapshots serialize
  send_frame_to_snapshots now s auth snapshots frame (some parser) =
      once_encoded now s auth frame (serialize c parser frame)
  send_frame_to_snapshots now s auth snapshots frame none =
      refreshed_with h c system_type now
        (fanout_frame_to_snapshots h c system_type s snapshots frame none)

  unfoldable pub send_frame_to_user : ℕ → Sender → DeviceOwner → F → Option MessageParser → Sender
  unfolding send_frame_to_snapshots get_user_connections connection_auth_snapshots_for_ids
      connection_snapshots_for_ids
  send_frame_to_user now s o frame parser =
      let ids = get_user_connections h s.manager o in
      send_frame_to_snapshots now s (connection_auth_snapshots_for_ids h s.manager ids)
        (connection_snapshots_for_ids h s.manager ids) frame parser

  unfoldable pub broadcast_frame : ℕ → Sender → F → Option MessageParser → Sender
  unfolding send_frame_to_snapshots connection_auth_snapshots connection_snapshots
  broadcast_frame now s frame parser =
      send_frame_to_snapshots now s (connection_auth_snapshots s.manager)
        (connection_snapshots s.manager) frame parser

  unfoldable pub broadcast_frame_except : ℕ → Sender → F → Text → Option MessageParser → Sender
  unfolding send_frame_to_snapshots connection_auth_snapshots_except connection_snapshots_except
  broadcast_frame_except now s frame excluded parser =
      send_frame_to_snapshots now s (connection_auth_snapshots_except s.manager excluded)
        (connection_snapshots_except s.manager excluded) frame parser

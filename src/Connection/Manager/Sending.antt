-- ===== src/Connection/Manager/Sending.antt =====
-- Sending to connections: the write queues of src/server/connection/manager/mod.rs, and the sends and
-- fan-outs of ops.rs and trait_impl.rs. The connections of a fan-out are served in order: each send only
-- puts the bytes in a queue. That a runtime is there to start a queue's writer is taken for granted.
mod Groups
mod Fanout
mod Silence
mod Tests
pub mod Frames
use flare_core.Base.{
  ℕ, Bool, true, false, List, [], ◌∷◌, ◌++◌, Option, none, some, Text, text_eq, nat_eq, ◌==◌,
  if◌then◌else◌, not, ◌-◌, is_empty, Result, ok, err, contains, leb, length, pair_eq,
}
use flare_core.Base.Dict.{Dict, get, insert}
use flare_core.Connection.Info.{
  ConnectionInfo, MessageParser, parser_new, SerializationFormat, json, CompressionAlgorithm,
  uncompressed, unencrypted,
}
use flare_core.Connection.Manager.State.{Hashers, ConnectionManager}
use flare_core.Connection.Manager.Gate.{
  SendError, serialize_frame_for_connection, ensure_frame_allowed_for_connection,
  send_to_connection_handle,
}
use flare_core.Connection.Manager.Batch.{update_connections_active}
use flare_core.Connection.Manager.Snapshots.{connection_snapshots_for_ids}
use flare_core.Negotiation.Algorithms.{compression_eq, format_eq, is_unencrypted}
use flare_core.Parser.{Bytes, Codecs, ParseError, serialize}

pub data QueueError : Type 0 where
  queue_closed queue_full : QueueError

-- The manager, and what waits in each write queue.
pub record Sender : Type 0 where
  pub manager : ConnectionManager
  pub queues : Dict ℕ (List Bytes)

abbrev or_empty : Option (List Bytes) → List Bytes
or_empty none = []
or_empty (some waiting) = waiting

unfoldable pub waiting : Sender → ℕ → List Bytes
waiting s writer = or_empty (get writer s.queues)

unfoldable pub try_enqueue : Sender → ℕ → Bytes → Sender × Result QueueError (Unit {0})
unfolding waiting insert
try_enqueue s writer bytes =
    if contains s.manager.closed_writers writer
    then (s, err queue_closed)
    else if leb s.manager.write_queue_capacity (length (waiting s writer))
    then (s, err queue_full)
    else (record s { queues = insert writer (waiting s writer ++ bytes ∷ []) s.queues }, ok tt)

abbrev pub Snapshot : Type 0
Snapshot = Text × ℕ × ConnectionInfo

abbrev pub EncodingKey : Type 0
EncodingKey = SerializationFormat × CompressionAlgorithm

-- `plain_groups`, in the order in which the groups appeared, and `encrypted`.
abbrev pub Groups : Type 0
Groups = List (EncodingKey × List Snapshot) × List Snapshot

unfoldable pub push_group :
    List (EncodingKey × List Snapshot) → EncodingKey → Snapshot → List (EncodingKey × List Snapshot)
push_group [] key x = (key, x ∷ []) ∷ []
push_group ((k, group) ∷ rest) key x =
    let others = push_group rest key x in
    if k == key then (k, group ++ x ∷ []) ∷ rest else (k, group) ∷ others

-- The group of a connection, or none if it is encrypted.
unfoldable pub plain_key : ConnectionInfo → Option EncodingKey
unfolding is_unencrypted
plain_key info =
    if not info.negotiation_completed
    then some (json, uncompressed)
    else if is_unencrypted info.encryption
    then some (info.serialization_format, info.compression)
    else none

abbrev pub group_at : Groups → Snapshot → Option EncodingKey → Groups
unfolding push_group
group_at (groups, encrypted) x (some key) = (push_group groups key x, encrypted)
group_at (groups, encrypted) x none = (groups, encrypted ++ x ∷ [])

unfoldable pub group_snapshot : Groups → Snapshot → Groups
unfolding push_group plain_key
group_snapshot g (id, writer, info) = group_at g (id, writer, info) (plain_key info)

unfoldable pub group_snapshots : Groups → List Snapshot → Groups
unfolding group_snapshot
group_snapshots g [] = g
group_snapshots g (x ∷ xs) = group_snapshots (group_snapshot g x) xs

module _ (h : Hashers) where
  abbrev pub isolated : Text → ℕ → Sender × Result QueueError (Unit {0}) → Sender × Bool
  isolated id writer (s, ok _) = (s, true)
  isolated id writer (s, err e) =
      let refused : Result QueueError (Unit {0}) = err e in
      (record s { manager = (send_to_connection_handle h s.manager id writer refused).0 }, false)

  -- Whether the bytes were queued; if not, the connection is isolated.
  unfoldable pub deliver : Sender → Text → ℕ → Bytes → Sender × Bool
  unfolding try_enqueue send_to_connection_handle
  deliver s id writer bytes = isolated id writer (try_enqueue s writer bytes)

  -- What could not be encoded is not sent.
  unfoldable pub deliver_encoded : Sender → Text → ℕ → Result SendError Bytes → Sender × Bool
  unfolding deliver
  deliver_encoded s id writer (err e) = (s, false)
  deliver_encoded s id writer (ok bytes) = deliver s id writer bytes

module _ {F : Type 0} (h : Hashers) (c : Codecs F) (system_type : F → Option ℕ) where
  abbrev pub encoded_for : F → Option MessageParser → Snapshot → Result SendError Bytes
  unfolding serialize_frame_for_connection
  encoded_for frame parser (id, writer, info) =
      serialize_frame_for_connection c system_type id info frame parser

  abbrev pub and_id : Text → List Text → Bool → List Text
  and_id id ids true = id ∷ ids
  and_id id ids false = ids

  -- The ids of the connections that the frame was queued for.
  unfoldable pub fanout_frame_to_snapshots :
      Sender → List Snapshot → F → Option MessageParser → Sender × List Text
  unfolding deliver_encoded serialize_frame_for_connection
  fanout_frame_to_snapshots s [] frame parser = (s, [])
  fanout_frame_to_snapshots s ((id, writer, info) ∷ rest) frame parser =
      let (t, queued) =
        deliver_encoded h s id writer (encoded_for frame parser (id, writer, info)) in
      let (u, ids) = fanout_frame_to_snapshots t rest frame parser in (u, and_id id ids queued)

  -- The frame was encoded once; an unverified connection is passed over.
  abbrev pub allowed_bytes : Result SendError (Unit {0}) → Bytes → Result SendError Bytes
  allowed_bytes (ok _) bytes = ok bytes
  allowed_bytes (err e) bytes = err e

  unfoldable pub fanout_bytes : Sender → List Snapshot → F → Bytes → Sender × List Text
  unfolding deliver_encoded ensure_frame_allowed_for_connection
  fanout_bytes s [] frame bytes = (s, [])
  fanout_bytes s ((id, writer, info) ∷ rest) frame bytes =
      let allowed =
        allowed_bytes (ensure_frame_allowed_for_connection c system_type id info frame) bytes in
      let (t, queued) = deliver_encoded h s id writer allowed in
      let (u, ids) = fanout_bytes t rest frame bytes in (u, and_id id ids queued)

  abbrev pub fanout_encoded :
      Sender → List Snapshot → F → Result ParseError Bytes → Sender × List Text
  unfolding fanout_bytes
  fanout_encoded s group frame (err e) = (s, [])
  fanout_encoded s group frame (ok bytes) = fanout_bytes s group frame bytes

  unfoldable pub fanout_groups :
      Sender → List (EncodingKey × List Snapshot) → F → Sender × List Text
  unfolding serialize fanout_bytes parser_new
  fanout_groups s [] frame = (s, [])
  fanout_groups s (((format, compression), group) ∷ rest) frame =
      let (t, ids) =
        fanout_encoded s group frame
          (serialize c (parser_new format compression unencrypted) frame) in
      let (u, later) = fanout_groups t rest frame in (u, ids ++ later)

  -- A `HashMap` is iterated in an order of its own: `iter`.
  unfoldable pub fanout_grouped :
      (List (EncodingKey × List Snapshot) → List (EncodingKey × List Snapshot))
      → Sender
      → List Snapshot
      → F
      → Sender × List Text
  unfolding group_snapshots fanout_groups fanout_frame_to_snapshots
  fanout_grouped iter s snapshots frame =
      let (groups, encrypted) = group_snapshots ([], []) snapshots in
      let (t, ids) = fanout_groups s (iter groups) frame in
      let (u, later) = fanout_frame_to_snapshots t encrypted frame none in (u, ids ++ later)

  abbrev pub refreshed_with : ℕ → Sender × List Text → Sender
  unfolding update_connections_active
  refreshed_with now (s, ids) = record s {
    manager = (update_connections_active h now s.manager ids).manager;
  }

  -- How many connections it was queued for, and for how many not.
  unfoldable pub fanout_frame_grouped_by_encoding :
      (List (EncodingKey × List Snapshot) → List (EncodingKey × List Snapshot))
      → ℕ
      → Sender
      → List Text
      → F
      → Sender × ℕ × ℕ
  unfolding connection_snapshots_for_ids fanout_grouped update_connections_active
  fanout_frame_grouped_by_encoding iter now s ids frame =
      let snapshots = connection_snapshots_for_ids h s.manager ids in
      let (t, sent) = fanout_grouped iter s snapshots frame in
      if is_empty snapshots
      then (s, 0, 0)
      else (refreshed_with now (t, sent), length sent, length snapshots - length sent)

-- ===== src/Connection/Manager/Batch/Cleanup.antt =====
-- Proofs on `remove_connection_snapshots` of manager/lifecycle.rs and `cleanup_timeout_connections` of
-- manager/ops.rs.
use flare_core.Base.{
  ℕ, ◌≡◌, ◌&&◌, List, [], none, arith, Text, text_eq, contains, Distinct, length, map, replicate,
  if◌then◌else◌, is_some,
}
use flare_core.Device.Registry.Defs.{owner_eq}
use flare_core.Connection.Shards.{index-lt}
use flare_core.Connection.Shards.Batches.{bucketed, concat, contains-batch}
use flare_core.Connection.Manager.State.{Hashers, ConnectionManager}
use flare_core.Connection.Manager.Index.{IsIndexSound}
use flare_core.Connection.Manager.Snapshots.{timeout_connection_snapshots}
use flare_core.Connection.Manager.Scans.{timed_out, contains-timeout_connection_snapshots}
use flare_core.Connection.Manager.Valid.{entry_at, IsValid}
use flare_core.Connection.Manager.Batch.{
  Removal, id_index, removed_from, sub_unless_zero, remove_connection_snapshots, snapshot_id,
  cleanup_timeout_connections, remove_user_connections_batch,
}
use flare_core.Connection.Manager.Batch.Removing.{IsTaken, removed_from-IsTaken}
use flare_core.Connection.Manager.Batch.Leaving.{
  IsBatchLeft, remove_user_connections_batch-IsBatchLeft,
}

module _ (h : Hashers) (m : ConnectionManager) (v : IsValid h m) (ids : List Text) where
  abbrev s : Removal
  s = removed_from h m ids

  -- The ids in the order of their shards.
  abbrev order : List Text
  order = concat (bucketed (id_index h m) (replicate (length m.connection_shards) []) ids)

  taken : IsTaken h m s order
  taken = removed_from-IsTaken h m v ids

  asked : (j : Text) → contains order j ≡ contains ids j
  asked j =
      contains-batch (length m.connection_shards) (id_index h m) ids j
        (λ k. index-lt h.hash_id m.connection_shards k v.entries.nonempty)

  -- The manager between the two loops.
  abbrev between : ConnectionManager
  between = record s.manager {
    connection_count = sub_unless_zero s.manager.connection_count (length s.removed_ids);
  }

  between-IsIndexSound : IsIndexSound h between
  between-IsIndexSound = record {
    sound = rw taken.same_users v.index.sound;
    occupied = λ o. rw taken.same_users (v.index.occupied o);
    single = λ o. rw taken.same_users (v.index.single o);
    counted = rw (taken.same_users, taken.same_user_count) v.index.counted;
  }

  left :
      IsBatchLeft h between s.removed_user_connections
        (remove_user_connections_batch h between s.removed_user_connections)
  left =
      remove_user_connections_batch-IsBatchLeft h between between-IsIndexSound
        s.removed_user_connections (omega (arith, taken.few, taken.rest, v.counted, v.bounded))

  -- Removing many connections at once leaves exactly the others registered.
  pub entry_at-remove_connection_snapshots :
      (j : Text)
      → entry_at h (remove_connection_snapshots h m ids).0 j
        ≡ (if contains ids j then none else entry_at h m j)
  unfolding remove_connection_snapshots
  entry_at-remove_connection_snapshots j =
      ground (arith, left.elsewhere.same_entries, taken.found j, asked j)

  -- It returns the ids that were registered, each once.
  pub contains-removed_ids :
      (j : Text)
      → contains (remove_connection_snapshots h m ids).1 j
        ≡ (contains ids j && is_some (entry_at h m j))
  unfolding remove_connection_snapshots
  contains-removed_ids j = ground (arith, taken.ids j, asked j)

  pub removed_ids-Distinct : Distinct (remove_connection_snapshots h m ids).1
  unfolding remove_connection_snapshots
  removed_ids-Distinct = taken.once

  -- Removing many connections at once keeps a valid manager valid: the counts and the user index
  -- follow.
  pub remove_connection_snapshots-IsValid : IsValid h (remove_connection_snapshots h m ids).0
  unfolding remove_connection_snapshots
  remove_connection_snapshots-IsValid = record {
    entries = rw left.elsewhere.same_entries taken.sound;
    index = left.index;
    indexed = λ o j. ground (
      arith,
      left.held o j,
      left.elsewhere.same_entries,
      taken.pairs o j,
      taken.found j,
      taken.same_users,
      v.indexed o j,
    );
    counted = ground (
      arith, left.elsewhere.same_count, left.elsewhere.same_entries, taken.same_count, taken.rest,
      v.counted, v.bounded,
    );
    bounded =
        ground
          (arith, left.elsewhere.same_count, taken.same_count, taken.rest, v.counted, v.bounded);
  }

module _ (h : Hashers) (m : ConnectionManager) (v : IsValid h m) (now timeout : ℕ) where
  -- A clean-up of a valid manager takes out exactly the connections whose last activity is longer
  -- ago than the timeout, returns exactly their ids, each once, and leaves a valid manager: its
  -- counts and its user index follow.
  pub cleanup_timeout_connections-IsValid :
      IsValid h (cleanup_timeout_connections h now m timeout).0
      × Distinct (cleanup_timeout_connections h now m timeout).1
      × ((j : Text)
          → (contains (cleanup_timeout_connections h now m timeout).1 j
              ≡ timed_out now timeout (entry_at h m j))
            × (entry_at h (cleanup_timeout_connections h now m timeout).0 j
                ≡ (if timed_out now timeout (entry_at h m j) then none else entry_at h m j)))
  unfolding cleanup_timeout_connections
  cleanup_timeout_connections-IsValid =
      let ids = map snapshot_id (timeout_connection_snapshots now m timeout) in
      (
        remove_connection_snapshots-IsValid h m v ids,
        removed_ids-Distinct h m v ids,
        λ j. (
          ground (
            arith,
            contains-removed_ids h m v ids j,
            contains-timeout_connection_snapshots h m v now timeout j,
          ),
          ground (
            arith,
            entry_at-remove_connection_snapshots h m v ids j,
            contains-timeout_connection_snapshots h m v now timeout j,
          ),
        ),
      )

-- ===== src/Connection/Manager/Batch.antt =====
-- Removing many connections at once: `remove_connection_snapshots`, `remove_user_connections_batch`,
-- `update_connections_active` and `cleanup_timeout_connections` of manager/lifecycle.rs and
-- manager/ops.rs.
pub mod Leaving
pub mod Removing
pub mod Cleanup
pub mod Refreshing
use flare_core.Base.{
  ℕ, suc, ◌+◌, Bool, true, List, [], ◌∷◌, ◌++◌, Option, none, some, Text, text_eq, if◌then◌else◌,
  length, map, set, is_empty, nat_beq,
}
use flare_core.Base.Dict.{Dict, get, insert, remove}
use flare_core.Device.Registry.Defs.{DeviceOwner, owner_eq}
use flare_core.Connection.Info.{owner, update_active}
use flare_core.Connection.Shards.{Shard, nth, index}
use flare_core.Connection.Shards.Batches.{run_batch}
use flare_core.Connection.Manager.State.{
  Hashers, ConnectionEntry, ConnectionManager, fetch_sub, close_writer,
}
use flare_core.Connection.Manager.Users.{remove_user_connection_index}
use flare_core.Connection.Manager.Snapshots.{timeout_connection_snapshots}

-- New contents of the shard `i`.
abbrev pub write_at {ℓ κ} :
    {K : Type ℓ} {V : Type κ} → List (Shard K V) → ℕ → Dict K V → List (Shard K V)
write_at s i d = set s i (record (nth s i) { entries = d })

-- Where the two loops stand: the manager, `removed_ids` and `removed_user_connections`.
pub record Removal : Type 0 where
  pub manager : ConnectionManager
  pub removed_ids : List Text
  pub removed_user_connections : List (DeviceOwner × Text)

-- The manager, and how many owners are gone.
pub record UserRemoval : Type 0 where
  pub manager : ConnectionManager
  pub gone : ℕ

pub record Refresh : Type 0 where
  pub manager : ConnectionManager
  pub updated : ℕ

abbrev pub add_owner :
    List (DeviceOwner × Text) → Option DeviceOwner → Text → List (DeviceOwner × Text)
add_owner pairs none id = pairs
add_owner pairs (some o) id = pairs ++ (o, id) ∷ []

abbrev pub remove_found : ℕ → Removal → Text → Option ConnectionEntry → Removal
remove_found i s id none = s
remove_found i s id (some e) =
    let shards = s.manager.connection_shards in
    record {
      manager =
          close_writer
            (record s.manager {
              connection_shards = write_at shards i (remove id (nth shards i).entries);
            })
            e.writer;
      removed_ids = s.removed_ids ++ id ∷ [];
      removed_user_connections = add_owner s.removed_user_connections (owner e.info) id;
    }

abbrev pub remove_step : ℕ → Removal → Text → Removal
remove_step i s id = remove_found i s id (get id (nth s.manager.connection_shards i).entries)

abbrev pub removal_locked : ℕ → Removal → Bool
removal_locked i s = (nth s.manager.connection_shards i).poisoned

abbrev pub leave_step : ℕ → UserRemoval → DeviceOwner × Text → UserRemoval
leave_step i s (o, id) =
    let shards = s.manager.user_connection_shards in
    let (users, is_gone) = remove_user_connection_index (nth shards i).entries o id in
    record {
      manager = record s.manager { user_connection_shards = write_at shards i users };
      gone = if is_gone then s.gone + 1 else s.gone;
    }

abbrev pub leave_locked : ℕ → UserRemoval → Bool
leave_locked i s = (nth s.manager.user_connection_shards i).poisoned

abbrev pub refresh_found : ℕ → ℕ → Refresh → Text → Option ConnectionEntry → Refresh
refresh_found now i s id none = s
refresh_found now i s id (some e) =
    let shards = s.manager.connection_shards in
    let fresh_entry = record e { info = update_active now e.info } in
    record {
      manager = record s.manager {
        connection_shards = write_at shards i (insert id fresh_entry (nth shards i).entries);
      };
      updated = s.updated + 1;
    }

abbrev pub refresh_step : ℕ → ℕ → Refresh → Text → Refresh
refresh_step now i s id =
    refresh_found now i s id (get id (nth s.manager.connection_shards i).entries)

abbrev pub refresh_locked : ℕ → Refresh → Bool
refresh_locked i s = (nth s.manager.connection_shards i).poisoned

-- `fetch_sub`, unless there is nothing to take off.
abbrev pub sub_unless_zero : ℕ → ℕ → ℕ
sub_unless_zero c k = if nat_beq k 0 then c else fetch_sub c k

abbrev pub snapshot_id : Text × ℕ × Option Text → Text
snapshot_id x = x.0

module _ (h : Hashers) where
  abbrev pub id_index : ConnectionManager → Text → ℕ
  id_index m id = index h.hash_id m.connection_shards id

  abbrev pub owner_index : ConnectionManager → DeviceOwner × Text → ℕ
  owner_index m (o, id) = index h.hash_owner m.user_connection_shards o

  unfoldable pub left_by : ConnectionManager → List (DeviceOwner × Text) → UserRemoval
  unfolding run_batch index remove_user_connection_index
  left_by m pairs =
      run_batch leave_step leave_locked (length m.user_connection_shards) (owner_index m)
        (record { manager = m; gone = 0 }) pairs

  unfoldable pub remove_user_connections_batch :
      ConnectionManager → List (DeviceOwner × Text) → ConnectionManager
  unfolding left_by
  remove_user_connections_batch m pairs =
      let s = left_by m pairs in
      record s.manager { user_count = sub_unless_zero s.manager.user_count s.gone }

  unfoldable pub removed_from : ConnectionManager → List Text → Removal
  unfolding run_batch index get remove close_writer owner
  removed_from m ids =
      run_batch remove_step removal_locked (length m.connection_shards) (id_index m)
        (record { manager = m; removed_ids = []; removed_user_connections = [] }) ids

  unfoldable pub remove_connection_snapshots :
      ConnectionManager → List Text → ConnectionManager × List Text
  unfolding removed_from remove_user_connections_batch
  remove_connection_snapshots m ids =
      let s = removed_from m ids in
      let counted = record s.manager {
        connection_count = sub_unless_zero s.manager.connection_count (length s.removed_ids);
      } in
      (remove_user_connections_batch counted s.removed_user_connections, s.removed_ids)

  unfoldable pub cleanup_timeout_connections :
      ℕ → ConnectionManager → ℕ → ConnectionManager × List Text
  unfolding remove_connection_snapshots timeout_connection_snapshots
  cleanup_timeout_connections now m timeout =
      remove_connection_snapshots m (map snapshot_id (timeout_connection_snapshots now m timeout))

  -- The number of connections whose last activity is now.
  unfoldable pub update_connections_active : ℕ → ConnectionManager → List Text → Refresh
  unfolding run_batch index get insert update_active
  update_connections_active now m ids =
      run_batch (refresh_step now) refresh_locked (length m.connection_shards) (id_index m)
        (record { manager = m; updated = 0 }) ids

-- ===== src/Connection/Manager/Lifecycle.antt =====
-- Registering and removing a connection: manager/lifecycle.rs and `ConnectionRemovalRegistry`. The
-- methods run one at a time: what the source does under a shard's lock is one step here.
use flare_core.Base.{
  ℕ, ◌-◌, Bool, true, false, List, ◌++◌, Option, none, some, Text, text_eq, if◌then◌else◌, ok, err,
}
use flare_core.Base.Chars.{codes}
use flare_core.Base.Dict.{get, contains_key, insert, remove}
use flare_core.Device.Registry.Defs.{DeviceOwner, owner_eq}
use flare_core.Connection.Info.{ConnectionInfo, info_new, owner}
use flare_core.Connection.Shards.{Shard, shard, write, all_keys}
use flare_core.Connection.Manager.State.{
  Hashers, FlareError, general_error, protocol_error, ConnectionEntry, ConnectionManager, Outcome,
  word, reserve_connection_slot, release_connection_slot, close_writer,
}
use flare_core.Connection.Manager.Users.{insert_user_connection, remove_user_connection}

abbrev pub lock_error : FlareError
lock_error = general_error (codes "Failed to lock connection shard")

abbrev pub not_found : Text → FlareError
not_found id = protocol_error (codes "Connection " ++ (id ++ codes " not found"))

abbrev pub already_exists : Text → FlareError
already_exists id = protocol_error (codes "Connection " ++ (id ++ codes " already exists"))

module _ (h : Hashers) where
  abbrev pub id_shard : ConnectionManager → Text → Shard Text ConnectionEntry
  id_shard m id = shard h.hash_id m.connection_shards id

  -- `shard.insert` and `shard.remove` under the lock of the connection's shard.
  abbrev pub put_entry : ConnectionManager → Text → ConnectionEntry → ConnectionManager
  put_entry m id e = record m {
    connection_shards =
        write h.hash_id m.connection_shards id (insert id e (id_shard m id).entries);
  }

  abbrev pub drop_entry : ConnectionManager → Text → ConnectionManager
  drop_entry m id = record m {
    connection_shards = write h.hash_id m.connection_shards id (remove id (id_shard m id).entries);
  }

  -- The user index, once the entry stands; if it fails the entry and the slot are given back.
  abbrev pub finish_insert : Text → Outcome (Unit {0}) → Outcome (Unit {0})
  finish_insert id (m, ok _) = (m, ok tt)
  finish_insert id (m, err e) = (release_connection_slot (drop_entry m id), err e)

  abbrev pub index_owner : ConnectionManager → Text → Option DeviceOwner → Outcome (Unit {0})
  index_owner m id none = (m, ok tt)
  index_owner m id (some o) = finish_insert id (insert_user_connection h m o id)

  -- A new connection's entry.
  abbrev pub entry_new : ℕ → ℕ → Text → ℕ → ℕ → Option Text → Bool → ConnectionEntry
  entry_new now unix id connection writer user requires_auth = record {
    handle = connection;
    writer = writer;
    info = record (info_new now unix id requires_auth) { user_id = user };
  }

  -- What follows once a slot is reserved.
  unfoldable pub insert_reserved : ConnectionManager → Text → ConnectionEntry → Outcome (Unit {0})
  insert_reserved m id e =
      if (id_shard m id).poisoned
      then (release_connection_slot m, err lock_error)
      else if contains_key id (id_shard m id).entries
      then (release_connection_slot m, err (already_exists id))
      else index_owner (put_entry m id e) id (owner e.info)

  unfoldable pub after_reserve : Outcome (Unit {0}) → Text → ConnectionEntry → Outcome (Unit {0})
  after_reserve (m, err e) id entry = (m, err e)
  after_reserve (m, ok _) id entry = insert_reserved m id entry

  -- `add_connection_with_limit`. The clocks, the connection and the identity of its new write queue
  -- are arguments.
  unfoldable pub add_connection_with_limit :
      ConnectionManager → ℕ → ℕ → Text → ℕ → ℕ → Option Text → Bool → ℕ → Outcome (Unit {0})
  add_connection_with_limit m now unix id connection writer user requires_auth max_connections =
      after_reserve (reserve_connection_slot m max_connections) id
        (entry_new now unix id connection writer user requires_auth)

  -- `add_connection`: no limit but that of `usize`.
  unfoldable pub add_connection :
      ConnectionManager → ℕ → ℕ → Text → ℕ → ℕ → Option Text → Bool → Outcome (Unit {0})
  add_connection m now unix id connection writer user requires_auth =
      add_connection_with_limit m now unix id connection writer user requires_auth (word - 1)

  abbrev pub unindex_owner : ConnectionManager → Text → Option DeviceOwner → Outcome (Unit {0})
  unindex_owner m id none = (m, ok tt)
  unindex_owner m id (some o) = remove_user_connection h m o id

  -- `ConnectionManager::remove_connection`
  unfoldable pub remove_connection : ConnectionManager → Text → Outcome (Unit {0})
  remove_connection m id =
      if (id_shard m id).poisoned
      then (m, err lock_error)
      else elim (get id (id_shard m id).entries) [
        | none ↦ (m, err (not_found id))
        | some e ↦
            unindex_owner (release_connection_slot (close_writer (drop_entry m id) e.writer)) id
              (owner e.info)
      ]

  -- `ConnectionRemovalRegistry::remove_connection`, called by a connection's writer task while the
  -- manager lives: it says whether the connection was there, and closes no queue.
  unfoldable pub registry_remove_connection : ConnectionManager → Text → ConnectionManager × Bool
  registry_remove_connection m id =
      if (id_shard m id).poisoned then (m, false) else elim (get id (id_shard m id).entries) [
        | none ↦ (m, false)
        | some e ↦
            ((unindex_owner (release_connection_slot (drop_entry m id)) id (owner e.info)).0, true)
      ]

  -- `get_connection`: the handle and the information.
  unfoldable pub get_connection : ConnectionManager → Text → Option (ℕ × ConnectionInfo)
  get_connection m id =
      if (id_shard m id).poisoned
      then none
      else elim (get id (id_shard m id).entries) [ none ↦ none | some e ↦ some (e.handle, e.info) ]

  -- `list_connections`
  unfoldable pub list_connections : ConnectionManager → List Text
  list_connections m = all_keys m.connection_shards

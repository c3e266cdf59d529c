-- ===== src/Connection/Manager/Users.antt =====
-- The user index: which connections a tenant's user has.
use flare_core.Base.{
  Bool, true, false, not, List, [], ◌∷◌, ◌++◌, Option, none, some, Text, ◌==◌, text_eq,
  if◌then◌else◌, contains, ok, err, filter, is_empty,
}
use flare_core.Base.Chars.{codes}
use flare_core.Base.Dict.{Dict, get, contains_key, insert, remove}
use flare_core.Device.Registry.Defs.{DeviceOwner, owner_eq}
use flare_core.Connection.Shards.{Shard, shard, write}
use flare_core.Connection.Manager.State.{
  Hashers, FlareError, general_error, ConnectionManager, Outcome, fetch_add_one, fetch_sub,
}

abbrev pub ids_or_empty : Option (List Text) → List Text
ids_or_empty none = []
ids_or_empty (some ids) = ids

abbrev pub push_absent : List Text → Text → List Text
push_absent ids id = if contains ids id then ids else ids ++ id ∷ []

-- `insert_user_connection_index`: the new index, and whether the owner is new.
unfoldable pub insert_user_connection_index :
    Dict DeviceOwner (List Text) → DeviceOwner → Text → Dict DeviceOwner (List Text) × Bool
insert_user_connection_index users o id =
    (insert o (push_absent (ids_or_empty (get o users)) id) users, not (contains_key o users))

-- `retain(|id| id != connection_id)`
abbrev pub without : Text → List Text → List Text
without id ids = filter (λ x. not (x == id)) ids

-- `remove_user_connection_index`: the new index, and whether the owner is gone.
unfoldable pub remove_user_connection_index :
    Dict DeviceOwner (List Text) → DeviceOwner → Text → Dict DeviceOwner (List Text) × Bool
remove_user_connection_index users o id = elim (get o users) [
  | none ↦ (users, false)
  | some ids ↦
      let rest = without id ids in
      if is_empty rest then (remove o users, true) else (insert o rest users, false)
]

abbrev pub user_lock_error : FlareError
user_lock_error = general_error (codes "Failed to lock user_connection shard")

module _ (h : Hashers) where
  abbrev pub user_shard : ConnectionManager → DeviceOwner → Shard DeviceOwner (List Text)
  user_shard m o = shard h.hash_owner m.user_connection_shards o

  unfoldable pub insert_user_connection :
      ConnectionManager → DeviceOwner → Text → Outcome (Unit {0})
  insert_user_connection m o id =
      if (user_shard m o).poisoned
      then (m, err user_lock_error)
      else (let (users, is_new) = insert_user_connection_index (user_shard m o).entries o id in
          (
            record m {
              user_connection_shards = write h.hash_owner m.user_connection_shards o users;
              user_count = if is_new then fetch_add_one m.user_count else m.user_count;
            },
            ok tt,
          ))

  unfoldable pub remove_user_connection :
      ConnectionManager → DeviceOwner → Text → Outcome (Unit {0})
  remove_user_connection m o id =
      if (user_shard m o).poisoned
      then (m, err user_lock_error)
      else (let (users, is_gone) = remove_user_connection_index (user_shard m o).entries o id in
          (
            record m {
              user_connection_shards = write h.hash_owner m.user_connection_shards o users;
              user_count = if is_gone then fetch_sub m.user_count 1 else m.user_count;
            },
            ok tt,
          ))

  abbrev same_owner : Option DeviceOwner → DeviceOwner → Bool
  same_owner none o = false
  same_owner (some p) o = p == o

  -- The old key goes first, if it is another one.
  unfoldable pub leave_before :
      ConnectionManager → Text → Option DeviceOwner → Option DeviceOwner → Outcome (Unit {0})
  leave_before m id none after = (m, ok tt)
  leave_before m id (some before) after =
      if same_owner after before then (m, ok tt) else remove_user_connection m before id

  -- Then the new key is entered.
  unfoldable pub enter_after : Outcome (Unit {0}) → Text → Option DeviceOwner → Outcome (Unit {0})
  enter_after (m, err e) id after = (m, err e)
  enter_after (m, ok _) id none = (m, ok tt)
  enter_after (m, ok _) id (some o) = insert_user_connection m o id

  unfoldable pub reindex_user_connection :
      ConnectionManager → Text → Option DeviceOwner → Option DeviceOwner → Outcome (Unit {0})
  reindex_user_connection m id before after = enter_after (leave_before m id before after) id after

  unfoldable pub get_user_connections : ConnectionManager → DeviceOwner → List Text
  get_user_connections m o =
      if (user_shard m o).poisoned then [] else ids_or_empty (get o (user_shard m o).entries)

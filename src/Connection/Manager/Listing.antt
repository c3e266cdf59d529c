-- ===== src/Connection/Manager/Listing.antt =====
-- Proofs on what the manager answers: its lists, its counts and its look-ups.
use flare_core.Base.{
  ℕ, ◌≡◌, Option, none, some, arith, Text, text_eq, contains, Distinct, length, is_some,
}
use flare_core.Device.Registry.Defs.{DeviceOwner, owner_eq}
use flare_core.Device.Registry.Consistency.{is_owner}
use flare_core.Connection.Info.{ConnectionInfo}
use flare_core.Connection.Shards.{find}
use flare_core.Connection.Shards.Sound.{shard-healthy, contains-all_keys, length-all_keys}
use flare_core.Connection.Manager.State.{Hashers, ConnectionEntry, ConnectionManager}
use flare_core.Connection.Manager.Users.{get_user_connections}
use flare_core.Connection.Manager.Lifecycle.{get_connection, list_connections}
use flare_core.Connection.Manager.Valid.{entry_at, owner_of, IsValid}

abbrev pub handle_and_info : Option ConnectionEntry → Option (ℕ × ConnectionInfo)
handle_and_info none = none
handle_and_info (some e) = some (e.handle, e.info)

module _ (h : Hashers) (m : ConnectionManager) (v : IsValid h m) where
  -- The list of a valid manager holds exactly the ids that `get_connection` finds.
  pub contains-list_connections :
      (id : Text) → contains (list_connections h m) id ≡ is_some (get_connection h m id)
  unfolding list_connections get_connection find
  contains-list_connections id = ground (
    arith,
    contains-all_keys h.hash_id m.connection_shards id v.entries,
    shard-healthy h.hash_id m.connection_shards id v.entries,
  )

  -- The length of that list is the number of connections that a valid manager counts.
  pub length-list_connections : length (list_connections h m) ≡ m.connection_count
  unfolding list_connections
  length-list_connections =
      ground (arith, length-all_keys m.connection_shards v.entries.healthy, v.counted)

  -- In a valid manager the connections listed for a tenant and user are exactly those whose
  -- information names that tenant and that user.
  pub contains-get_user_connections :
      (o : DeviceOwner) (id : Text)
      → contains (get_user_connections h m o) id ≡ is_owner o (owner_of (entry_at h m id))
  unfolding get_user_connections find
  contains-get_user_connections o id =
      ground
        (arith, shard-healthy h.hash_owner m.user_connection_shards o v.index.sound, v.indexed o id)

  -- Each of them is listed once.
  pub get_user_connections-Distinct : (o : DeviceOwner) → Distinct (get_user_connections h m o)
  unfolding get_user_connections find
  get_user_connections-Distinct o =
      ground (
        arith,
        shard-healthy h.hash_owner m.user_connection_shards o v.index.sound,
        v.index.single o,
      )

  pub get_connection-entry_at :
      (id : Text) → get_connection h m id ≡ handle_and_info (entry_at h m id)
  unfolding get_connection find
  get_connection-entry_at id =
      ground (arith, shard-healthy h.hash_id m.connection_shards id v.entries)

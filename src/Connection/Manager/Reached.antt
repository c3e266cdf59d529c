-- ===== src/Connection/Manager/Reached.antt =====
-- The managers that the program's operations lead to from the empty one, on
-- src/server/connection/manager.rs.
use flare_core.Base.{ℕ, ◌<◌, ◌≡◌, Bool, List, Option, Text, text_eq, contains, Distinct}
use flare_core.Connection.Info.{ConnectionInfo}
use flare_core.Connection.Manager.Adding.{add_connection-IsValid}
use flare_core.Connection.Manager.Batch.{update_connections_active, cleanup_timeout_connections}
use flare_core.Connection.Manager.Batch.Cleanup.{cleanup_timeout_connections-IsValid}
use flare_core.Connection.Manager.Batch.Refreshing.{update_connections_active-IsValid}
use flare_core.Connection.Manager.Lifecycle.{
  add_connection_with_limit, remove_connection, registry_remove_connection,
}
use flare_core.Connection.Manager.Listing.{
  contains-get_user_connections, get_user_connections-Distinct,
}
use flare_core.Connection.Manager.Named.{
  update_connection_active-IsValid, mark_negotiation_confirmed-IsValid,
}
use flare_core.Connection.Manager.Ops.{
  update_info, update_connection_active, mark_negotiation_confirmed,
}
use flare_core.Connection.Manager.Removing.{remove_connection-IsValid, registry_remove-IsValid}
use flare_core.Connection.Manager.State.{word, Hashers, ConnectionManager, with_write_queue_limits}
use flare_core.Connection.Manager.Updates.{update_info-IsValid}
use flare_core.Connection.Manager.Users.{get_user_connections}
use flare_core.Connection.Manager.Valid.{
  entry_at, owner_of, IsValid, with_write_queue_limits-IsValid,
}
use flare_core.Device.Registry.Consistency.{is_owner}
use flare_core.Device.Registry.Defs.{DeviceOwner}

-- A registration's limit is a `usize`; any change of a connection's information is allowed.
pub data Reachable (h : Hashers) : ConnectionManager → Type 0 where
  created :
      (timeout fanout capacity : ℕ) → Reachable h (with_write_queue_limits timeout fanout capacity)
  added :
      {m : ConnectionManager} (now unix : ℕ) (id : Text) (connection writer : ℕ)
      (user : Option Text) (requires_auth : Bool) (max_connections : ℕ)
      → max_connections < word
      → Reachable h m
      → Reachable h
          (add_connection_with_limit h m now unix id connection writer user requires_auth
            max_connections).0
  removed :
      {m : ConnectionManager} (id : Text) → Reachable h m → Reachable h (remove_connection h m id).0
  removed_by_writer :
      {m : ConnectionManager} (id : Text)
      → Reachable h m
      → Reachable h (registry_remove_connection h m id).0
  updated :
      {m : ConnectionManager} (id : Text) (f : ConnectionInfo → ConnectionInfo)
      → Reachable h m
      → Reachable h (update_info h m id f).0
  refreshed :
      {m : ConnectionManager} (now : ℕ) (id : Text)
      → Reachable h m
      → Reachable h (update_connection_active h m now id).0
  all_refreshed :
      {m : ConnectionManager} (now : ℕ) (ids : List Text)
      → Reachable h m
      → Reachable h (update_connections_active h now m ids).manager
  confirmed :
      {m : ConnectionManager} (id : Text)
      → Reachable h m
      → Reachable h (mark_negotiation_confirmed h m id).0
  cleaned_up :
      {m : ConnectionManager} (now timeout : ℕ)
      → Reachable h m
      → Reachable h (cleanup_timeout_connections h now m timeout).0

Reachable-IsValid : (h : Hashers) {m : ConnectionManager} → Reachable h m → IsValid h m
Reachable-IsValid h (created timeout fanout capacity) =
    with_write_queue_limits-IsValid h timeout fanout capacity
Reachable-IsValid h (added now unix id connection writer user requires_auth limit b r) =
    add_connection-IsValid h _ now unix id connection writer user requires_auth limit
      (Reachable-IsValid h r) b
Reachable-IsValid h (removed id r) = remove_connection-IsValid h _ id (Reachable-IsValid h r)
Reachable-IsValid h (removed_by_writer id r) =
    registry_remove-IsValid h _ id (Reachable-IsValid h r)
Reachable-IsValid h (updated id f r) = update_info-IsValid h _ id f (Reachable-IsValid h r)
Reachable-IsValid h (refreshed now id r) =
    update_connection_active-IsValid h _ id (Reachable-IsValid h r) now
Reachable-IsValid h (all_refreshed now ids r) =
    (update_connections_active-IsValid h now _ (Reachable-IsValid h r) ids).0
Reachable-IsValid h (confirmed id r) =
    mark_negotiation_confirmed-IsValid h _ id (Reachable-IsValid h r)
Reachable-IsValid h (cleaned_up now timeout r) =
    (cleanup_timeout_connections-IsValid h _ (Reachable-IsValid h r) now timeout).0

-- In every manager that the operations lead to from the empty one, the connections listed for a
-- tenant and user are exactly those whose information names that tenant and that user, each listed
-- once.
pub get_user_connections-Reachable :
    (h : Hashers) (m : ConnectionManager) (o : DeviceOwner)
    → Reachable h m
    → ((id : Text)
        → contains (get_user_connections h m o) id ≡ is_owner o (owner_of (entry_at h m id)))
      × Distinct (get_user_connections h m o)
get_user_connections-Reachable h m o r =
    let v = Reachable-IsValid h r in
    (contains-get_user_connections h m v o, get_user_connections-Distinct h m v o)

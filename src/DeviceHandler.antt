-- ===== src/DeviceHandler.antt =====
-- A new device kicks the old ones: src/server/connection/device_handler.rs, over the device manager and
-- the connection manager. What a kicked connection is handed is kept in order; whether its transport
-- takes the frame changes nothing here. The source waits between the kicks, where other tasks may run; here
-- the handling of a conflict is one step.
mod Tests
use flare_core.Base.{
  ◌≡◌, refl, ◌∙◌, Bool, true, false, not, ◌&&◌, ◌||◌, List, [], ◌∷◌, ◌++◌, Option, none, some,
  arith, Text, text_eq, text_beq_iff, ◌==◌, contains, if◌then◌else◌, ℕ, Option-cases, inl, inr,
}
use flare_core.Base.Dict.{get, insert, get-insert}
use flare_core.Device.Platform.{DeviceInfo}
use flare_core.Device.Strategy.{DeviceConflictStrategy}
use flare_core.Device.Registry.Defs.{
  DeviceOwner, DeviceRegistry, owner_eq, add_device, remove_device, remove_conflicts,
}
use flare_core.Device.Registry.Buckets.{get-remove_conflicts}
use flare_core.Device.Registry.Consistency.{IsConsistent, owners-add_device, kicked-add_device}
use flare_core.Kick.{SystemCommand, device_conflict_kicked}
use flare_core.Connection.Info.{ConnectionInfo, MessageParser, parser_new, unencrypted}
use flare_core.Connection.Manager.State.{Hashers, ConnectionManager}
use flare_core.Connection.Manager.Lifecycle.{get_connection, remove_connection}
use flare_core.Connection.Manager.Valid.{entry_at, IsValid}
use flare_core.Connection.Manager.Removing.{remove_connection-IsValid, entry_at-remove_connection}
use flare_core.Connection.Manager.Listing.{handle_and_info, get_connection-entry_at}

-- A command for a connection, with the parser that serializes it.
pub record Kick : Type 0 where
  pub handle : ℕ
  pub parser : MessageParser
  pub command : SystemCommand

pub record Server : Type 0 where
  pub devices : DeviceRegistry
  pub connections : ConnectionManager
  pub kicks : List Kick

module _ (h : Hashers) (owner : DeviceOwner) (connection_id : Text) (command : SystemCommand) where
  -- The old connection is told, and its device goes.
  abbrev pub tell : Server → Text → Option (ℕ × ConnectionInfo) → Server
  tell s old none = s
  tell s old (some (conn, info)) = record s {
    devices = remove_device s.devices owner old;
    kicks =
        s.kicks
        ++ record {
          handle = conn;
          parser = parser_new info.serialization_format info.compression unencrypted;
          command = command;
        }
          ∷ [];
  }

  unfoldable pub kick : Server → Text → Server
  kick s old =
      if old == connection_id
      then s
      else (let told = tell s old (get_connection h s.connections old) in
          record told { connections = (remove_connection h told.connections old).0 })

  unfoldable pub kick_all : Server → List Text → Server
  unfolding kick
  kick_all s [] = s
  kick_all s (old ∷ rest) = kick_all (kick s old) rest

-- `handle_device_conflict`: the device manager, if there is one, decides by its strategy. The platform
-- is an argument as its `Debug` prints it.
unfoldable pub handle_device_conflict :
    Hashers
    → Option DeviceConflictStrategy
    → Server
    → DeviceOwner
    → Text
    → Text
    → DeviceInfo
    → Server × List Text
unfolding add_device kick_all device_conflict_kicked
handle_device_conflict h none s owner connection_id platform info = (s, [])
handle_device_conflict h (some strategy) s owner connection_id platform info =
    let (devices, conflicts) = add_device strategy s.devices owner connection_id info in
    let command = device_conflict_kicked platform info.device_id in
    (kick_all h owner connection_id command (record s { devices = devices }) conflicts, conflicts)

-- After the connections `done` have been kicked.
record IsKicked (h : Hashers) (s : Server) (done : List Text) (t : Server) : Type 0 where
  pub valid : IsValid h t.connections
  pub same_devices : t.devices ≡ s.devices
  pub found :
      (j : Text)
      → entry_at h t.connections j ≡ (if contains done j then none else entry_at h s.connections j)

remove_device-absent :
    (r : DeviceRegistry) (o : DeviceOwner) (c : Text)
    → get c r.owners ≡ none
    → remove_device r o c ≡ r
unfolding remove_device
remove_device-absent r o c e = ground arith

module _ (h : Hashers) (owner : DeviceOwner) (id : Text) (command : SystemCommand) where
  tell-devices :
      (s : Server) (old : Text) (found : Option (ℕ × ConnectionInfo))
      → get old s.devices.owners ≡ none
      → (tell h owner id command s old found).devices ≡ s.devices
  tell-devices s old none e = refl
  tell-devices s old (some (conn, info)) e = remove_device-absent s.devices owner old e

  tell-connections :
      (s : Server) (old : Text) (found : Option (ℕ × ConnectionInfo))
      → (tell h owner id command s old found).connections ≡ s.connections
  tell-connections s old none = refl
  tell-connections s old (some (conn, info)) = refl

  kick-connections :
      (s : Server) (old : Text)
      → (old == id) ≡ false
      → (kick h owner id command s old).connections ≡ (remove_connection h s.connections old).0
  unfolding kick
  kick-connections s old n =
      ground (arith, tell-connections s old (get_connection h s.connections old))

  -- A connection that the registry no longer knows is kicked.
  kick-IsKicked :
      (s : Server) (old : Text)
      → (old == id) ≡ false
      → get old s.devices.owners ≡ none
      → IsValid h s.connections
      → IsKicked h s (old ∷ []) (kick h owner id command s old)
  unfolding kick
  kick-IsKicked s old n e v =
      let found = get_connection h s.connections old in
      record {
        valid = rw (kick-connections s old n) (remove_connection-IsValid h s.connections old v);
        same_devices = ground (arith, tell-devices s old found e);
        found = λ j. ground (
          arith,
          text_beq_iff old j,
          kick-connections s old n,
          entry_at-remove_connection h s.connections old v j,
        );
      }

  kick_all-IsKicked :
      (s : Server) (cs : List Text)
      → ((c : Text) → contains cs c ≡ true → ((c == id) ≡ false) × (get c s.devices.owners ≡ none))
      → IsValid h s.connections
      → IsKicked h s cs (kick_all h owner id command s cs)
  unfolding kick_all
  kick_all-IsKicked s [] f v = record { valid = v; same_devices = refl; found = λ j. refl }
  kick_all-IsKicked s (c ∷ cs) f v =
      let here = f c (ground (arith, text_beq_iff c c)) in
      let first = kick-IsKicked s c here.0 here.1 v in
      let t = kick h owner id command s c in
      let rest =
        kick_all-IsKicked t cs
          (λ x m. let known = f x (ground arith) in (known.0, rw first.same_devices known.1))
          first.valid in
      record {
        valid = rest.valid;
        same_devices = rest.same_devices ∙ first.same_devices;
        found = λ j. ground (arith, rest.found j, first.found j);
      }

-- With a valid connection manager and a consistent registry, a new device takes exactly the
-- conflicting connections, which it returns, out of the connection manager; the manager stays
-- valid, and the registry is the one that the registration left: the kicks take nothing else out.
pub handle_device_conflict-kicks :
    (h : Hashers) (strategy : DeviceConflictStrategy) (s : Server) (owner : DeviceOwner)
    (id platform : Text) (info : DeviceInfo)
    → IsValid h s.connections
    → IsConsistent s.devices
    → let (t, conflicts) = handle_device_conflict h (some strategy) s owner id platform info in
      let (devices, kicked) = add_device strategy s.devices owner id info in
      IsValid h t.connections
      × (conflicts ≡ kicked)
      × (t.devices ≡ devices)
      × ((j : Text)
          → entry_at h t.connections j
            ≡ (if contains kicked j then none else entry_at h s.connections j))
unfolding handle_device_conflict
handle_device_conflict-kicks h strategy s owner id platform info v c =
    let (devices, kicked) = add_device strategy s.devices owner id info in
    let command = device_conflict_kicked platform info.device_id in
    let all =
      kick_all-IsKicked h owner id command (record s { devices = devices }) kicked
        (λ x m. (
          (kicked-add_device strategy s.devices owner id info x c m).0,
          ground (
            arith,
            owners-add_device strategy s.devices owner id info,
            get-insert id x owner (remove_conflicts kicked s.devices.owners),
            get-remove_conflicts kicked s.devices.owners x,
            text_beq_iff x id,
            text_beq_iff id x,
            (kicked-add_device strategy s.devices owner id info x c m).0,
          ),
        ))
        v in
    (all.valid, refl, all.same_devices, all.found)

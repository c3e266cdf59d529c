-- ===== src/DeviceHandler/Tests.antt =====
-- A second phone kicks the first, on concrete registries.
use flare_core.Base.{
  ◌≡◌, true, [], none, some, arith, Text, contains, text_eq, if◌then◌else◌, length,
}
use flare_core.Base.Chars.{codes}
use flare_core.Device.Platform.{android, ios, new}
use flare_core.Device.Strategy.{mobile_exclusive}
use flare_core.Device.Registry.Defs.{DeviceOwner, DeviceRegistry, init, add_device}
use flare_core.Device.Registry.Consistency.{
  IsConsistent, init-IsConsistent, add_device-IsConsistent,
}
use flare_core.Connection.Manager.State.{Hashers, ConnectionManager, with_write_queue_limits}
use flare_core.Connection.Manager.Lifecycle.{add_connection_with_limit}
use flare_core.Connection.Manager.Valid.{entry_at, IsValid, with_write_queue_limits-IsValid}
use flare_core.Connection.Manager.Adding.{add_connection-IsValid}
use flare_core.DeviceHandler.{Server, handle_device_conflict, handle_device_conflict-kicks}

abbrev h : Hashers
h = record { hash_id = length; hash_owner = λ o. length o.user_id }

abbrev c1 : Text
c1 = codes "c1"

abbrev c2 : Text
c2 = codes "c2"

abbrev ann : DeviceOwner
ann = record { tenant_id = codes "0"; user_id = codes "ann" }

abbrev online : DeviceRegistry
online = (add_device mobile_exclusive init ann c1 (new (codes "phone") android)).0

abbrev connected : ConnectionManager
connected =
    (add_connection_with_limit h (with_write_queue_limits 10000 256 1024) 5 100 c1 7 8
      (some (codes "ann")) true 9).0

abbrev before : Server
before = record { devices = online; connections = connected; kicks = [] }

connected-IsValid : IsValid h connected
connected-IsValid =
    add_connection-IsValid h (with_write_queue_limits 10000 256 1024) 5 100 c1 7 8
      (some (codes "ann")) true 9 (with_write_queue_limits-IsValid h 10000 256 1024) (omega arith)

online-IsConsistent : IsConsistent online
online-IsConsistent =
    add_device-IsConsistent mobile_exclusive init ann c1 (new (codes "phone") android)
      init-IsConsistent

handle_device_conflict-kicks_example :
    let (t, conflicts) =
      handle_device_conflict h
        (some mobile_exclusive)
        before
        ann
        c2
        (codes "IOS")
        (new (codes "tablet") ios) in
    let (devices, kicked) = add_device mobile_exclusive online ann c2 (new (codes "tablet") ios) in
    IsValid h t.connections
    × (conflicts ≡ kicked)
    × (t.devices ≡ devices)
    × ((j : Text)
        → entry_at h t.connections j ≡ (if contains kicked j then none else entry_at h connected j))
handle_device_conflict-kicks_example =
    handle_device_conflict-kicks h mobile_exclusive before ann c2 (codes "IOS")
      (new (codes "tablet") ios) connected-IsValid online-IsConsistent

-- ===== src/Device/Registry/Conflicts.antt =====
-- Proofs on what `add_device` kicks and keeps.
use flare_core.Base.{
  ◌≡◌, Bool, false, not, ◌&&◌, Option, none, some, arith, Text, text_eq, text_beq_iff, ◌==◌,
  if◌then◌else◌, contains, Option-cases, inl, inr,
}
use flare_core.Base.Dict.{get, get-insert}
use flare_core.Device.Platform.{DevicePlatform, DeviceInfo}
use flare_core.Device.Strategy.{
  DeviceConflictStrategy, IsBuiltin, clash, check_conflict, evicted,
  contains-evicted-check_conflict,
}
use flare_core.Device.Registry.Defs.{
  DeviceOwner, owner_eq, owner_beq_iff, UserDevice, DeviceRegistry, bucket, leave_previous,
  existing_platforms, remove_conflicts, add_device,
}
use flare_core.Device.Registry.Buckets.{
  get-remove_conflicts, contains-existing_platforms, contains-conflict_connections,
}
use flare_core.Device.Registry.Consistency.{
  IsConsistent, get-leave_previous, leave_previous-Distinct, bucket-add_device,
}

-- Whether a registered device clashes with a new one of the given platform.
abbrev pub clashes : DeviceConflictStrategy → DevicePlatform → Option UserDevice → Bool
clashes s new none = false
clashes s new (some d) = clash s new d.device_info.platform

-- Under every strategy but `Custom`, registering a device in a consistent registry kicks exactly
-- the other connections of the same tenant and user whose platform clashes with the new one.
pub contains-kicked-add_device :
    (s : DeviceConflictStrategy) (r : DeviceRegistry) (o : DeviceOwner) (id : Text)
    (info : DeviceInfo) (c : Text)
    → IsBuiltin s
    → IsConsistent r
    → contains (add_device s r o id info).1 c
      ≡ (not (c == id) && clashes s info.platform (get c (bucket r o)))
unfolding add_device
contains-kicked-add_device s r o id info c b v =
    let left = bucket (leave_previous r o id) o in
    let online = existing_platforms id left in
    let platforms = evicted (check_conflict s info.platform online) in
    elim (Option-cases (get c left)) [
      | inl e ↦ ground (
        arith,
        text_beq_iff id c,
        text_beq_iff c id,
        owner_beq_iff o o,
        contains-conflict_connections id platforms left c (leave_previous-Distinct r o o id v),
        get-leave_previous r o o id c v,
      )
      | inr (d, e) ↦ ground (
        arith,
        text_beq_iff id c,
        text_beq_iff c id,
        owner_beq_iff o o,
        contains-conflict_connections id platforms left c (leave_previous-Distinct r o o id v),
        get-leave_previous r o o id c v,
        contains-evicted-check_conflict s info.platform online d.device_info.platform b,
        contains-existing_platforms id left c e,
      )
    ]

-- Under every strategy but `Custom`, after a registration no other connection of that tenant and
-- user clashes with the new device, and the new device is registered.
add_device-exclusive :
    (s : DeviceConflictStrategy) (r : DeviceRegistry) (o : DeviceOwner) (id : Text)
    (info : DeviceInfo) (c : Text)
    → IsBuiltin s
    → IsConsistent r
    → (c == id) ≡ false
    → (clashes s info.platform (get c (bucket (add_device s r o id info).0 o)) ≡ false)
      × (get id (bucket (add_device s r o id info).0 o)
          ≡ some (record { connection_id = id; device_info = info }))
add_device-exclusive s r o id info c b v n =
    let kicked = (add_device s r o id info).1 in
    let left = bucket (leave_previous r o id) o in
    let device : UserDevice = record { connection_id = id; device_info = info } in
    (
      ground (
        arith,
        text_beq_iff id c,
        text_beq_iff c id,
        owner_beq_iff o o,
        bucket-add_device s r o o id info,
        get-insert id c device (remove_conflicts kicked left),
        get-remove_conflicts kicked left c,
        get-leave_previous r o o id c v,
        contains-kicked-add_device s r o id info c b v,
      ),
      ground (
        arith,
        text_beq_iff id id,
        owner_beq_iff o o,
        bucket-add_device s r o o id info,
        get-insert id id device (remove_conflicts kicked left),
      ),
    )

-- Registering a device leaves every device of another tenant or user in place, but for an earlier
-- registration of the same connection.
pub get-add_device-other :
    (s : DeviceConflictStrategy) (r : DeviceRegistry) (o p : DeviceOwner) (id : Text)
    (info : DeviceInfo) (c : Text)
    → IsConsistent r
    → (o == p) ≡ false
    → get c (bucket (add_device s r o id info).0 p) ≡ (if id == c then none else get c (bucket r p))
get-add_device-other s r o p id info c v n =
    ground (arith, bucket-add_device s r o p id info, get-leave_previous r o p id c v)

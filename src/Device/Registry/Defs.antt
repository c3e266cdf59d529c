-- ===== src/Device/Registry/Defs.antt =====
-- The registry's state and the methods of `DeviceManager`.
use flare_core.Base.{
  ◌≡◌, ◌↔◌, Bool, true, ◌&&◌, List, [], ◌∷◌, Option, none, some, arith, Text, text_beq_iff, text_eq,
  text_beq, Equality, ◌==◌, if◌then◌else◌, contains, is_empty,
}
use flare_core.Base.Chars.{codes, trim}
use flare_core.Base.Dict.{Dict, keys, values, get, insert, remove}
use flare_core.Device.Platform.{DevicePlatform, DeviceInfo, platform_eq, platform_beq}
use flare_core.Device.Strategy.{DeviceConflictStrategy, check_conflict, evicted, insert_platform}

abbrev pub default_tenant_id : Text
default_tenant_id = codes "0"

pub record DeviceOwner : Type 0 where
  pub tenant_id : Text
  pub user_id : Text

-- `DeviceOwner::new`: a missing or blank tenant is the default tenant.
unfoldable pub owner_new : Option Text → Text → DeviceOwner
owner_new none user = record { tenant_id = default_tenant_id; user_id = user }
owner_new (some t) user = record {
  tenant_id = if is_empty (trim t) then default_tenant_id else t;
  user_id = user;
}

-- Derived `PartialEq`.
unfoldable pub owner_beq : DeviceOwner → DeviceOwner → Bool
unfolding text_beq
owner_beq a b = (a.tenant_id == b.tenant_id) && (a.user_id == b.user_id)

pub owner_beq_iff : (a b : DeviceOwner) → (owner_beq a b ≡ true) ↔ (a ≡ b)
unfolding owner_beq
owner_beq_iff a b =
    ground (arith, text_beq_iff a.tenant_id b.tenant_id, text_beq_iff a.user_id b.user_id)

instance abbrev pub owner_eq : Equality DeviceOwner
owner_eq = record { eq = owner_beq; eq_iff = owner_beq_iff }

pub record UserDevice : Type 0 where
  pub connection_id : Text
  pub device_info : DeviceInfo

pub record DeviceRegistry : Type 0 where
  pub devices : Dict DeviceOwner (Dict Text UserDevice)
  pub owners : Dict Text DeviceOwner

unfoldable pub init : DeviceRegistry
init = record { devices = []; owners = [] }

abbrev or_empty : Option (Dict Text UserDevice) → Dict Text UserDevice
or_empty none = []
or_empty (some b) = b

-- The devices of an owner; an owner with no entry has none.
unfoldable pub bucket : DeviceRegistry → DeviceOwner → Dict Text UserDevice
unfolding get
bucket r o = or_empty (get o r.devices)

-- `DeviceRegistry::detach`, less its Boolean result, which no caller reads.
unfoldable pub detach : DeviceRegistry → DeviceOwner → Text → DeviceRegistry
unfolding get insert remove owner_beq
detach r o id = elim (get o r.devices) [
  | none ↦ r
  | some b ↦
      let rest = remove id b in
      if is_empty rest
      then record r { devices = remove o r.devices }
      else record r { devices = insert o rest r.devices }
]

-- The set of platforms of the other connections of the bucket.
unfoldable pub existing_platforms : Text → Dict Text UserDevice → List DevicePlatform
unfolding text_beq insert_platform
existing_platforms id [] = []
existing_platforms id ((c, d) ∷ b) =
    let rest = existing_platforms id b in
    if c == id then rest else insert_platform d.device_info.platform rest

-- The loop that collects the connections to kick.
unfoldable pub conflict_connections : Text → List DevicePlatform → Dict Text UserDevice → List Text
unfolding text_beq platform_beq
conflict_connections id ps [] = []
conflict_connections id ps ((c, d) ∷ b) =
    let rest = conflict_connections id ps b in
    if c == id then rest else if contains ps d.device_info.platform then c ∷ rest else rest

-- `for conn_id in &conflicts`: out of the bucket and out of the reverse index.
unfoldable pub remove_conflicts {ℓ} : {V : Type ℓ} → List Text → Dict Text V → Dict Text V
unfolding remove text_beq
remove_conflicts [] m = m
remove_conflicts (c ∷ cs) m = remove_conflicts cs (remove c m)

-- A connection that was registered for another owner leaves that owner's bucket first.
unfoldable pub leave_previous : DeviceRegistry → DeviceOwner → Text → DeviceRegistry
unfolding get detach text_beq
leave_previous r o id = elim (get id r.owners) [
  | none ↦ r
  | some previous ↦ if previous == o then r else detach r previous id
]

-- `DeviceManager::add_device`: the new registry, and the connections to kick.
unfoldable pub add_device :
    DeviceConflictStrategy
    → DeviceRegistry
    → DeviceOwner
    → Text
    → DeviceInfo
    → DeviceRegistry × List Text
unfolding leave_previous bucket existing_platforms conflict_connections remove_conflicts
    check_conflict
add_device strategy r o id info =
    let left = leave_previous r o id in
    let b = bucket left o in
    let verdict = check_conflict strategy info.platform (existing_platforms id b) in
    let conflicts = conflict_connections id (evicted verdict) b in
    let device : UserDevice = record { connection_id = id; device_info = info } in
    (
      record {
        devices = insert o (insert id device (remove_conflicts conflicts b)) left.devices;
        owners = insert id o (remove_conflicts conflicts left.owners);
      },
      conflicts,
    )

-- `DeviceManager::remove_device`
unfoldable pub remove_device : DeviceRegistry → DeviceOwner → Text → DeviceRegistry
unfolding detach
remove_device r o id = elim (get id r.owners) [
  | none ↦ r
  | some p ↦ if p == o then detach (record r { owners = remove id r.owners }) o id else r
]

-- `DeviceManager::remove_connection`
unfoldable pub remove_connection : DeviceRegistry → Text → DeviceRegistry × Option DeviceOwner
unfolding detach
remove_connection r id = elim (get id r.owners) [
  | none ↦ (r, none)
  | some o ↦ (detach (record r { owners = remove id r.owners }) o id, some o)
]

abbrev infos : List UserDevice → List DeviceInfo
infos [] = []
infos (d ∷ ds) = d.device_info ∷ infos ds

unfoldable pub get_user_devices : DeviceRegistry → DeviceOwner → List DeviceInfo
unfolding bucket
get_user_devices r o = infos (values (bucket r o))

unfoldable pub get_user_connections : DeviceRegistry → DeviceOwner → List Text
unfolding bucket
get_user_connections r o = keys (bucket r o)

unfoldable pub find_device : Text → List UserDevice → Option Text
unfolding text_beq
find_device device_id [] = none
find_device device_id (d ∷ ds) =
    if d.device_info.device_id == device_id then some d.connection_id else find_device device_id ds

unfoldable pub get_device_connection : DeviceRegistry → DeviceOwner → Text → Option Text
unfolding bucket find_device
get_device_connection r o device_id = find_device device_id (values (bucket r o))

-- ===== src/Device/Registry/Buckets.antt =====
-- Lemmas on the steps of the methods of `DeviceManager`.
use flare_core.Base.{
  ◌≡◌, refl, Bool, true, false, not, ◌||◌, ◌&&◌, List, [], ◌∷◌, Option, none, some, arith, Text,
  text_eq, text_beq_iff, ◌==◌, if◌then◌else◌, contains, Distinct, is_empty, Option-cases, inl, inr,
}
use flare_core.Base.Dict.{
  Dict, keys, get, insert, remove, get-insert, get-remove, remove-Distinct, contains-keys,
}
use flare_core.Device.Platform.{DevicePlatform, platform_eq, platform_beq_iff}
use flare_core.Device.Strategy.{insert_platform}
use flare_core.Base.{contains-append}
use flare_core.Device.Registry.Defs.{
  DeviceOwner, owner_eq, owner_beq_iff, UserDevice, DeviceRegistry, bucket, detach,
  existing_platforms, conflict_connections, remove_conflicts,
}

is_empty-eq : (b : Dict Text UserDevice) → is_empty b ≡ true → b ≡ []
is_empty-eq [] h = refl
is_empty-eq (e ∷ b) h = cc

pub bucket-insert :
    (r : DeviceRegistry) (o p : DeviceOwner) (b : Dict Text UserDevice) (os : Dict Text DeviceOwner)
    → bucket (record { devices = insert o b r.devices; owners = os }) p
      ≡ (if o == p then b else bucket r p)
unfolding bucket
bucket-insert r o p b os = ground (arith, get-insert o p b r.devices)

pub bucket-owners :
    (r : DeviceRegistry) (os : Dict Text DeviceOwner) (p : DeviceOwner)
    → bucket (record r { owners = os }) p ≡ bucket r p
unfolding bucket
bucket-owners r os p = refl

pub bucket-detach :
    (r : DeviceRegistry) (o p : DeviceOwner) (id : Text)
    → bucket (detach r o id) p ≡ (if o == p then remove id (bucket r o) else bucket r p)
unfolding bucket detach
bucket-detach r o p id = elim (Option-cases (get o r.devices)) [
  | inl e ↦ ground (arith, owner_beq_iff o p)
  | inr (b, e) ↦ ground (
    arith,
    owner_beq_iff o p,
    get-insert o p (remove id b) r.devices,
    get-remove o p r.devices,
    is_empty-eq (remove id b),
  )
]

pub owners-detach :
    (r : DeviceRegistry) (o : DeviceOwner) (id : Text) → (detach r o id).owners ≡ r.owners
unfolding detach
owners-detach r o id = ground arith

pub get-remove_conflicts {ℓ} :
    {V : Type ℓ} (cs : List Text) (m : Dict Text V) (c : Text)
    → get c (remove_conflicts cs m) ≡ (if contains cs c then none else get c m)
unfolding remove_conflicts
get-remove_conflicts [] m c = refl
get-remove_conflicts (x ∷ cs) m c =
    ground (arith, get-remove x c m, get-remove_conflicts cs (remove x m) c)

pub remove_conflicts-Distinct {ℓ} :
    {V : Type ℓ} (cs : List Text) (m : Dict Text V)
    → Distinct (keys m)
    → Distinct (keys (remove_conflicts cs m))
unfolding remove_conflicts
remove_conflicts-Distinct [] m d = d
remove_conflicts-Distinct (x ∷ cs) m d =
    remove_conflicts-Distinct cs (remove x m) (remove-Distinct x m d)

contains-insert_platform :
    (p q : DevicePlatform) (ps : List DevicePlatform)
    → contains (insert_platform p ps) q ≡ ((p == q) || contains ps q)
unfolding insert_platform
contains-insert_platform p q ps =
    ground (arith, platform_beq_iff p q, contains-append ps (p ∷ []) q)

-- Every other connection's platform is in the set that the strategy is asked about.
pub contains-existing_platforms :
    (id : Text) (b : Dict Text UserDevice) (c : Text) {d : UserDevice}
    → get c b ≡ some d
    → (c == id) ≡ false
    → contains (existing_platforms id b) d.device_info.platform ≡ true
unfolding get existing_platforms
contains-existing_platforms id [] c h n = cc
contains-existing_platforms id ((j, e) ∷ b) c {d} h n = ground (
  arith,
  text_beq_iff j c,
  platform_beq_iff e.device_info.platform d.device_info.platform,
  contains-existing_platforms id b c {d = d},
  contains-insert_platform e.device_info.platform d.device_info.platform (existing_platforms id b),
)

-- Whether a bucket's entry is of one of the platforms.
abbrev pub is_of : List DevicePlatform → Option UserDevice → Bool
is_of ps none = false
is_of ps (some d) = contains ps d.device_info.platform

pub contains-conflict_connections :
    (id : Text) (ps : List DevicePlatform) (b : Dict Text UserDevice) (c : Text)
    → Distinct (keys b)
    → contains (conflict_connections id ps b) c ≡ (not (c == id) && is_of ps (get c b))
unfolding get conflict_connections
contains-conflict_connections id ps [] c d = ground arith
contains-conflict_connections id ps ((j, e) ∷ b) c d =
    ground (arith, text_beq_iff j c, contains-keys j b, contains-conflict_connections id ps b c d.1)

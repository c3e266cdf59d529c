-- ===== src/Device/Registry/Consistency.antt =====
-- The invariant of the buckets and the reverse index, for the proofs on src/server/device/manager.rs.
use flare_core.Base.{
  ◌≡◌, refl, Bool, true, false, not, ◌&&◌, Option, none, some, arith, Text, text_eq, text_beq_iff,
  ◌==◌, if◌then◌else◌, contains, Distinct, Option-cases, Bool-cases, ap, ◌∙◌, inl, inr,
}
use flare_core.Base.Dict.{
  keys, get, contains_key, insert, remove, get-insert, get-remove, insert-Distinct, remove-Distinct,
}
use flare_core.Device.Platform.{DeviceInfo}
use flare_core.Device.Strategy.{DeviceConflictStrategy, check_conflict, evicted}
use flare_core.Device.Registry.Defs.{
  DeviceOwner, owner_eq, owner_beq_iff, UserDevice, DeviceRegistry, init, bucket, detach,
  leave_previous, existing_platforms, remove_conflicts, add_device, remove_device,
  remove_connection,
}
use flare_core.Device.Registry.Buckets.{
  bucket-insert, bucket-owners, bucket-detach, owners-detach, get-remove_conflicts,
  remove_conflicts-Distinct, contains-conflict_connections,
}

abbrev pub is_owner : DeviceOwner → Option DeviceOwner → Bool
is_owner o none = false
is_owner o (some p) = p == o

pub record IsConsistent (r : DeviceRegistry) : Type 0 where
  -- A connection is in an owner's bucket exactly when the reverse index says so.
  pub indexed :
      (c : Text) (o : DeviceOwner) → contains_key c (bucket r o) ≡ is_owner o (get c r.owners)
  pub distinct : (o : DeviceOwner) → Distinct (keys (bucket r o))

pub init-IsConsistent : IsConsistent init
unfolding init bucket get
init-IsConsistent = record { indexed = λ c o. refl; distinct = λ o. tt }

pub get-leave_previous :
    (r : DeviceRegistry) (o p : DeviceOwner) (id c : Text)
    → IsConsistent r
    → get c (bucket (leave_previous r o id) p)
      ≡ (if (id == c) && not (o == p) then none else get c (bucket r p))
unfolding leave_previous
get-leave_previous r o p id c v = elim (Option-cases (get id r.owners)) [
  | inl e ↦ ground (arith, text_beq_iff id c, v.indexed id p)
  | inr (q, e) ↦ ground (
    arith,
    text_beq_iff id c,
    owner_beq_iff o p,
    owner_beq_iff q o,
    owner_beq_iff q p,
    v.indexed id p,
    bucket-detach r q p id,
    get-remove id c (bucket r q),
  )
]

pub leave_previous-Distinct :
    (r : DeviceRegistry) (o p : DeviceOwner) (id : Text)
    → IsConsistent r
    → Distinct (keys (bucket (leave_previous r o id) p))
unfolding leave_previous
leave_previous-Distinct r o p id v = elim (Option-cases (get id r.owners)) [
  | inl e ↦ ground (arith, v.distinct p)
  | inr (q, e) ↦ ground (
    arith,
    v.distinct p,
    owner_beq_iff q p,
    bucket-detach r q p id,
    remove-Distinct id (bucket r q) (v.distinct q),
  )
]

owners-leave_previous :
    (r : DeviceRegistry) (o : DeviceOwner) (id : Text) → (leave_previous r o id).owners ≡ r.owners
unfolding leave_previous
owners-leave_previous r o id = elim (Option-cases (get id r.owners)) [
  | inl e ↦ ground arith
  | inr (q, e) ↦ ground (arith, owners-detach r q id)
]

-- What `add_device` leaves in every bucket.
pub bucket-add_device :
    (s : DeviceConflictStrategy) (r : DeviceRegistry) (o p : DeviceOwner) (id : Text)
    (info : DeviceInfo)
    → bucket (add_device s r o id info).0 p ≡ (
        if o == p
        then insert id
            (record { connection_id = id; device_info = info })
            (remove_conflicts (add_device s r o id info).1 (bucket (leave_previous r o id) o))
        else bucket (leave_previous r o id) p)
unfolding add_device
bucket-add_device s r o p id info =
    bucket-insert (leave_previous r o id) o p _ (add_device s r o id info).0.owners

pub owners-add_device :
    (s : DeviceConflictStrategy) (r : DeviceRegistry) (o : DeviceOwner) (id : Text)
    (info : DeviceInfo)
    → (add_device s r o id info).0.owners
      ≡ insert id o (remove_conflicts (add_device s r o id info).1 r.owners)
unfolding add_device
owners-add_device s r o id info = rw (owners-leave_previous r o id)

-- Only connections of the owner's own bucket are kicked, and never the new one.
pub kicked-add_device :
    (s : DeviceConflictStrategy) (r : DeviceRegistry) (o : DeviceOwner) (id : Text)
    (info : DeviceInfo) (c : Text)
    → IsConsistent r
    → contains (add_device s r o id info).1 c ≡ true
    → ((c == id) ≡ false) × (contains_key c (bucket r o) ≡ true)
unfolding add_device
kicked-add_device s r o id info c v h =
    let left = bucket (leave_previous r o id) o in
    let platforms = evicted (check_conflict s info.platform (existing_platforms id left)) in
    ground (
      arith,
      text_beq_iff c id,
      text_beq_iff id c,
      owner_beq_iff o o,
      contains-conflict_connections id platforms left c (leave_previous-Distinct r o o id v),
      get-leave_previous r o o id c v,
    )

is_owner_unique :
    (o p : DeviceOwner) (w : Option DeviceOwner)
    → (o == p) ≡ false
    → is_owner o w ≡ true
    → is_owner p w ≡ false
is_owner_unique o p none n h = refl
is_owner_unique o p (some q) n h =
    ground (arith, owner_beq_iff o p, owner_beq_iff q o, owner_beq_iff q p)

add_device-indexed :
    (s : DeviceConflictStrategy) (r : DeviceRegistry) (o : DeviceOwner) (id : Text)
    (info : DeviceInfo)
    → IsConsistent r
    → (c : Text) (p : DeviceOwner)
    → contains_key c (bucket (add_device s r o id info).0 p)
      ≡ is_owner p (get c (add_device s r o id info).0.owners)
add_device-indexed s r o id info v c p =
    let (after, kicked) = add_device s r o id info in
    let left = leave_previous r o id in
    let device : UserDevice = record { connection_id = id; device_info = info } in
    ground (
      arith,
      text_beq_iff id c,
      text_beq_iff c id,
      owner_beq_iff o p,
      bucket-add_device s r o p id info,
      owners-add_device s r o id info,
      get-insert id c device (remove_conflicts kicked (bucket left o)),
      get-insert id c o (remove_conflicts kicked r.owners),
      get-remove_conflicts kicked (bucket left o) c,
      get-remove_conflicts kicked r.owners c,
      get-leave_previous r o p id c v,
      kicked-add_device s r o id info c v,
      v.indexed c p,
      v.indexed c o,
      is_owner_unique o p (get c r.owners),
    )

add_device-Distinct :
    (s : DeviceConflictStrategy) (r : DeviceRegistry) (o : DeviceOwner) (id : Text)
    (info : DeviceInfo)
    → IsConsistent r
    → (p : DeviceOwner) → Distinct (keys (bucket (add_device s r o id info).0 p))
add_device-Distinct s r o id info v p =
    let (after, kicked) = add_device s r o id info in
    let left = bucket (leave_previous r o id) o in
    let device : UserDevice = record { connection_id = id; device_info = info } in
    ground (
      arith,
      bucket-add_device s r o p id info,
      leave_previous-Distinct r o p id v,
      insert-Distinct id device (remove_conflicts kicked left)
          (remove_conflicts-Distinct kicked left (leave_previous-Distinct r o o id v)),
    )

-- Registering a device keeps the buckets and the reverse index consistent, under every strategy.
pub add_device-IsConsistent :
    (s : DeviceConflictStrategy) (r : DeviceRegistry) (o : DeviceOwner) (id : Text)
    (info : DeviceInfo)
    → IsConsistent r
    → IsConsistent (add_device s r o id info).0
add_device-IsConsistent s r o id info v = record {
  indexed = add_device-indexed s r o id info v;
  distinct = add_device-Distinct s r o id info v;
}

detached-IsConsistent :
    (r : DeviceRegistry) (o : DeviceOwner) (id : Text)
    → IsConsistent r
    → get id r.owners ≡ some o
    → IsConsistent (detach (record r { owners = remove id r.owners }) o id)
detached-IsConsistent r o id v e =
    let r' : DeviceRegistry = record r { owners = remove id r.owners } in
    record {
      indexed = λ c p. ground (
        arith,
        text_beq_iff id c,
        owner_beq_iff o p,
        bucket-detach r' o p id,
        bucket-owners r (remove id r.owners) o,
        bucket-owners r (remove id r.owners) p,
        owners-detach r' o id,
        get-remove id c (bucket r o),
        get-remove id c r.owners,
        v.indexed c p,
      );
      distinct = λ p. ground (
        arith,
        bucket-detach r' o p id,
        bucket-owners r (remove id r.owners) o,
        bucket-owners r (remove id r.owners) p,
        remove-Distinct id (bucket r o) (v.distinct o),
        v.distinct p,
      );
    }

-- Removing a device for an owner keeps the buckets and the reverse index consistent.
pub remove_device-IsConsistent :
    (r : DeviceRegistry) (o : DeviceOwner) (id : Text)
    → IsConsistent r
    → IsConsistent (remove_device r o id)
unfolding remove_device
remove_device-IsConsistent r o id v = elim (Option-cases (get id r.owners)) [
  | inl e ↦ rw (e, remove_device) v
  | inr (p, e) ↦
      rw (e, remove_device)
        (elim (Bool-cases (p == o)) [
          | inl same ↦
              rw same (detached-IsConsistent r o id v (e ∙ ap some ((owner_beq_iff p o).0 same)))
          | inr other ↦ rw other v
        ])
]

pub remove_connection-IsConsistent :
    (r : DeviceRegistry) (id : Text) → IsConsistent r → IsConsistent (remove_connection r id).0
unfolding remove_connection
remove_connection-IsConsistent r id v = elim (Option-cases (get id r.owners)) [
  | inl e ↦ rw (e, remove_connection) v
  | inr (o, e) ↦ rw (e, remove_connection) (detached-IsConsistent r o id v e)
]

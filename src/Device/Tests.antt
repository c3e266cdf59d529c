-- ===== src/Device/Tests.antt =====
-- Devices on concrete inputs.
use flare_core.Base.{
  arith, ◌≡◌, refl, false, not, ◌&&◌, [], ◌∷◌, none, contains, text_eq, text_beq, ◌==◌,
  if◌then◌else◌,
}
use flare_core.Base.Chars.{codes}
use flare_core.Base.Dict.{get}
use flare_core.Device.Platform.{pc, h5, android, ios, platform_eq, platform_beq, DeviceInfo, new}
use flare_core.Device.Strategy.{
  mobile_exclusive, custom, check_conflict, evicted, clash, contains-evicted-check_conflict,
  check_conflict-first_group,
}
use flare_core.Device.Registry.Defs.{
  DeviceOwner, owner_beq, owner_eq, DeviceRegistry, init, bucket, add_device,
}
use flare_core.Device.Registry.Consistency.{
  IsConsistent, init-IsConsistent, add_device-IsConsistent,
}
use flare_core.Device.Registry.Conflicts.{clashes, contains-kicked-add_device, get-add_device-other}

abbrev ann : DeviceOwner
ann = record { tenant_id = codes "0"; user_id = codes "ann" }

abbrev bob : DeviceOwner
bob = record { tenant_id = codes "0"; user_id = codes "bob" }

abbrev phone : DeviceInfo
phone = new (codes "phone") android

abbrev tablet : DeviceInfo
tablet = new (codes "tablet") ios

-- The phone is online.
abbrev online : DeviceRegistry
online = (add_device mobile_exclusive init ann (codes "c1") phone).0

online-IsConsistent : IsConsistent online
online-IsConsistent =
    add_device-IsConsistent mobile_exclusive init ann (codes "c1") phone init-IsConsistent

add_device-IsConsistent_example :
    IsConsistent (add_device mobile_exclusive online ann (codes "c2") tablet).0
add_device-IsConsistent_example =
    add_device-IsConsistent mobile_exclusive online ann (codes "c2") tablet online-IsConsistent

contains-kicked-add_device_example :
    contains (add_device mobile_exclusive online ann (codes "c2") tablet).1 (codes "c1") ≡ (
      not (codes "c1" == codes "c2")
      && clashes mobile_exclusive ios (get (codes "c1") (bucket online ann)))
unfolding new
contains-kicked-add_device_example =
    contains-kicked-add_device mobile_exclusive online ann (codes "c2") tablet (codes "c1") tt
      online-IsConsistent

other_id : (codes "c1" == codes "c2") ≡ false
unfolding text_beq
other_id = refl

other_owner : (bob == ann) ≡ false
unfolding owner_beq text_beq
other_owner = refl

get-add_device-other_example :
    get (codes "c1") (bucket (add_device mobile_exclusive online bob (codes "c2") tablet).0 ann)
    ≡ (if codes "c2" == codes "c1" then none else get (codes "c1") (bucket online ann))
get-add_device-other_example =
    get-add_device-other mobile_exclusive online bob ann (codes "c2") tablet (codes "c1")
      online-IsConsistent other_owner

contains-evicted-check_conflict_example :
    contains (evicted (check_conflict mobile_exclusive ios (android ∷ pc ∷ []))) android
    ≡ (contains (android ∷ pc ∷ []) android && clash mobile_exclusive ios android)
contains-evicted-check_conflict_example =
    contains-evicted-check_conflict mobile_exclusive ios (android ∷ pc ∷ []) android tt

-- Two groups, `ios` with `android` and `ios` with `h5`, and both others online.
check_conflict-first_group_example :
    contains
      (evicted (
        check_conflict
          (custom [] ((h5 ∷ []) ∷ (ios ∷ android ∷ []) ∷ (ios ∷ h5 ∷ []) ∷ []))
          ios
          (android ∷ h5 ∷ [])))
      h5
    ≡ false
unfolding platform_beq
check_conflict-first_group_example =
    check_conflict-first_group [] ((h5 ∷ []) ∷ []) ((ios ∷ h5 ∷ []) ∷ []) (ios ∷ android ∷ []) ios
      (android ∷ h5 ∷ []) android h5 (λ q n. absurd (ground arith), tt) refl refl refl

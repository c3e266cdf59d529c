-- ===== src/Device/Strategy.antt =====
-- src/common/device.rs: `DeviceConflictStrategy`. A `HashSet<DevicePlatform>` is a list; where the
-- source collects into a set, the list is built with no entry twice.
use flare_core.Base.{
  ◌≡◌, refl, Bool, true, false, not, ◌||◌, ◌&&◌, List, [], ◌∷◌, ◌++◌, arith, ◌==◌, if◌then◌else◌,
  contains, Result, ok, err, filter, is_empty, length, ltb, Bool-cases, inl, inr, subst, sym,
}
use flare_core.Device.Platform.{
  DevicePlatform, web, pc, h5, android, ios, harmony_os, other, is_mobile, platform_eq,
  platform_beq_iff,
}

pub data DeviceConflictStrategy : Type 0 where
  allow_all mobile_exclusive platform_exclusive fully_exclusive mobile_and_pc_coexist :
      DeviceConflictStrategy
  custom : List (List DevicePlatform) → List (List DevicePlatform) → DeviceConflictStrategy

-- `matches!(p, Web | PC)`
unfoldable pub is_pc : DevicePlatform → Bool
is_pc web = true
is_pc pc = true
is_pc h5 = false
is_pc android = false
is_pc ios = false
is_pc harmony_os = false
is_pc (other s) = false

unfoldable pub get_mobile_devices : List DevicePlatform → List DevicePlatform
get_mobile_devices devices = filter is_mobile devices

-- `if !conflicts.is_empty() { return Err(conflicts) } Ok(())`
abbrev pub err_if_any : List DevicePlatform → Result (List DevicePlatform) (Unit {0})
err_if_any [] = ok tt
err_if_any (p ∷ ps) = err (p ∷ ps)

-- `HashSet::insert`
unfoldable pub insert_platform : DevicePlatform → List DevicePlatform → List DevicePlatform
insert_platform p set = if contains set p then set else set ++ p ∷ []

unfoldable pub is_subset : List DevicePlatform → List DevicePlatform → Bool
is_subset [] allowed = true
is_subset (p ∷ ps) allowed = contains allowed p && is_subset ps allowed

unfoldable pub any_allows : List (List DevicePlatform) → List DevicePlatform → Bool
unfolding is_subset
any_allows [] combined = false
any_allows (allowed ∷ rest) combined = is_subset combined allowed || any_allows rest combined

-- The tail of the `Custom` arm, after the exclusive groups.
unfoldable pub check_combinations :
    List (List DevicePlatform)
    → DevicePlatform
    → List DevicePlatform
    → Result (List DevicePlatform) (Unit {0})
unfolding insert_platform any_allows
check_combinations allowed new existing =
    let combined = insert_platform new existing in
    if ltb 1 (length combined) && not (any_allows allowed combined) then err existing else ok tt

-- `for group in exclusive_groups`
unfoldable pub check_groups :
    List (List DevicePlatform)
    → DevicePlatform
    → List DevicePlatform
    → Result (List DevicePlatform) (Unit {0})
check_groups [] new existing = ok tt
check_groups (group ∷ rest) new existing =
    let next = check_groups rest new existing in
    if contains group new && not (is_empty (filter (contains group) existing))
    then err (filter (contains group) existing)
    else next

unfoldable pub check_conflict :
    DeviceConflictStrategy
    → DevicePlatform
    → List DevicePlatform
    → Result (List DevicePlatform) (Unit {0})
unfolding get_mobile_devices is_pc
check_conflict allow_all new existing = ok tt
check_conflict mobile_exclusive new existing =
    if is_mobile new then err_if_any (get_mobile_devices existing) else ok tt
check_conflict platform_exclusive new existing =
    if contains existing new then err (new ∷ []) else ok tt
check_conflict fully_exclusive new existing = if is_empty existing then ok tt else err existing
check_conflict mobile_and_pc_coexist new existing =
    if is_mobile new
    then err_if_any (get_mobile_devices existing)
    else if is_pc new
    then err_if_any (filter is_pc existing)
    else if contains existing new
    then err (new ∷ [])
    else ok tt
check_conflict (custom allowed groups) new existing = elim (check_groups groups new existing) [
  | err conflicts ↦ err conflicts
  | ok _ ↦ check_combinations allowed new existing
]

-- What a strategy forbids two devices of one user, said of the pair of platforms.
unfoldable pub clash : DeviceConflictStrategy → DevicePlatform → DevicePlatform → Bool
clash allow_all p q = false
clash mobile_exclusive p q = is_mobile p && is_mobile q
clash platform_exclusive p q = p == q
clash fully_exclusive p q = true
clash mobile_and_pc_coexist p q =
    if is_mobile p then is_mobile q else if is_pc p then is_pc q else p == q
clash (custom allowed groups) p q = false

abbrev pub IsBuiltin : DeviceConflictStrategy → Type 0
IsBuiltin (custom allowed groups) = ⊥
IsBuiltin _ = Unit {0}

-- The platforms that a verdict asks to kick.
abbrev pub evicted : Result (List DevicePlatform) (Unit {0}) → List DevicePlatform
evicted (ok _) = []
evicted (err ps) = ps

contains-filter :
    (f : DevicePlatform → Bool) (ps : List DevicePlatform) (q : DevicePlatform)
    → contains (filter f ps) q ≡ (contains ps q && f q)
contains-filter f [] q = refl
contains-filter f (p ∷ ps) q = ground (arith, platform_beq_iff p q, contains-filter f ps q)

evicted-err_if_any : (ps : List DevicePlatform) → evicted (err_if_any ps) ≡ ps
evicted-err_if_any [] = refl
evicted-err_if_any (p ∷ ps) = refl

-- Under each strategy but `Custom`, the platforms to kick are exactly those already online that
-- clash with the new one, where clashing is a relation of two platforms.
pub contains-evicted-check_conflict :
    (s : DeviceConflictStrategy) (new : DevicePlatform) (existing : List DevicePlatform)
    (q : DevicePlatform)
    → IsBuiltin s
    → contains (evicted (check_conflict s new existing)) q ≡ (contains existing q && clash s new q)
unfolding check_conflict clash
contains-evicted-check_conflict allow_all new existing q b = ground arith
contains-evicted-check_conflict mobile_exclusive new existing q b =
    ground
      (arith, evicted-err_if_any (filter is_mobile existing), contains-filter is_mobile existing q)
contains-evicted-check_conflict platform_exclusive new existing q b =
    ground (arith, platform_beq_iff new q)
contains-evicted-check_conflict fully_exclusive new [] q b = refl
contains-evicted-check_conflict fully_exclusive new (p ∷ ps) q b = ground arith
contains-evicted-check_conflict mobile_and_pc_coexist new existing q b = ground (
  arith,
  platform_beq_iff new q,
  evicted-err_if_any (filter is_mobile existing),
  evicted-err_if_any (filter is_pc existing),
  contains-filter is_mobile existing q,
  contains-filter is_pc existing q,
)
contains-evicted-check_conflict (custom allowed groups) new existing q b = elim b [ ]

evicted-check_groups :
    (groups : List (List DevicePlatform)) (new : DevicePlatform) (existing : List DevicePlatform)
    (q : DevicePlatform)
    → contains (evicted (check_groups groups new existing)) q ≡ true
    → contains existing q ≡ true
unfolding check_groups
evicted-check_groups [] new existing q h = cc
evicted-check_groups (group ∷ rest) new existing q h =
    ground
      (arith, contains-filter (contains group) existing q, evicted-check_groups rest new existing q)

evicted-check_combinations :
    (allowed : List (List DevicePlatform)) (new : DevicePlatform) (existing : List DevicePlatform)
    (q : DevicePlatform)
    → contains (evicted (check_combinations allowed new existing)) q ≡ true
    → contains existing q ≡ true
unfolding check_combinations
evicted-check_combinations allowed new existing q h =
    ground (arith, any_allows allowed (insert_platform new existing))

evicted-custom :
    (allowed groups : List (List DevicePlatform)) (new : DevicePlatform)
    (existing : List DevicePlatform) (q : DevicePlatform)
    → contains (evicted (check_conflict (custom allowed groups) new existing)) q ≡ true
    → contains existing q ≡ true
unfolding check_conflict
evicted-custom allowed groups new existing q h = ground (
  arith,
  evicted-check_groups groups new existing q,
  evicted-check_combinations allowed new existing q,
)

-- Whatever the strategy, only platforms that are online are kicked.
pub evicted-check_conflict-online :
    (s : DeviceConflictStrategy) (new : DevicePlatform) (existing : List DevicePlatform)
    (q : DevicePlatform)
    → contains (evicted (check_conflict s new existing)) q ≡ true
    → contains existing q ≡ true
evicted-check_conflict-online (custom allowed groups) new existing q h =
    evicted-custom allowed groups new existing q h
evicted-check_conflict-online s new existing q h =
    ground (arith, contains-evicted-check_conflict s new existing q tt)

is_empty_of_contains :
    (ps : List DevicePlatform) (p : DevicePlatform) → contains ps p ≡ true → is_empty ps ≡ false
is_empty_of_contains [] p h = cc
is_empty_of_contains (x ∷ ps) p h = refl

is_empty-of_none :
    (ps : List DevicePlatform) → ((p : DevicePlatform) → contains ps p ≡ false) → is_empty ps ≡ true
is_empty-of_none [] h = refl
is_empty-of_none (x ∷ ps) h = ground (arith, h x, platform_beq_iff x x)

-- No group has a conflict: it does not hold the new device, or holds none that is online.
abbrev pub HaveNoConflict :
    List (List DevicePlatform) → DevicePlatform → List DevicePlatform → Type 0
HaveNoConflict [] new existing = Unit {0}
HaveNoConflict (g ∷ groups) new existing =
    ((q : DevicePlatform)
      → contains g new ≡ true
      → contains existing q ≡ true
      → contains g q ≡ false)
    × HaveNoConflict groups new existing

check_groups-first :
    (before rest : List (List DevicePlatform)) (g : List DevicePlatform) (new : DevicePlatform)
    (existing : List DevicePlatform) (p : DevicePlatform)
    → HaveNoConflict before new existing
    → contains g new ≡ true
    → contains existing p ≡ true
    → contains g p ≡ true
    → check_groups (before ++ g ∷ rest) new existing ≡ err (filter (contains g) existing)
unfolding check_groups
check_groups-first [] rest g new existing p v gn ep gp = ground (
  arith,
  contains-filter (contains g) existing p,
  is_empty_of_contains (filter (contains g) existing) p,
)
check_groups-first (b ∷ before) rest g new existing p (v, vs) gn ep gp =
    let later = check_groups-first before rest g new existing p vs gn ep gp in
    elim (Bool-cases (contains b new)) [
      | inr n ↦ rw n later
      | inl n ↦
          rw
            (
              n,
              is_empty-of_none (filter (contains b) existing)
                  (λ q. ground (arith, contains-filter (contains b) existing q, v q n)),
            )
            later
    ]

check_conflict-groups :
    (allowed groups : List (List DevicePlatform)) (new : DevicePlatform)
    (existing conflicts : List DevicePlatform)
    → check_groups groups new existing ≡ err conflicts
    → check_conflict (custom allowed groups) new existing ≡ err conflicts
unfolding check_conflict
check_conflict-groups allowed groups new existing conflicts h = rw (h, check_conflict) refl

-- A `Custom` strategy stops at the first exclusive group that has a conflict: where the groups
-- before it have none, the devices kicked are exactly those online in that group, so that a device
-- in a later group, even one that also forbids the new device, is kicked only if the first group
-- holds it too.
pub check_conflict-first_group :
    (allowed before rest : List (List DevicePlatform)) (g : List DevicePlatform)
    (new : DevicePlatform) (existing : List DevicePlatform) (p q : DevicePlatform)
    → HaveNoConflict before new existing
    → contains g new ≡ true
    → contains existing p ≡ true
    → contains g p ≡ true
    → contains (evicted (check_conflict (custom allowed (before ++ g ∷ rest)) new existing)) q
      ≡ (contains existing q && contains g q)
check_conflict-first_group allowed before rest g new existing p q v gn ep gp =
    let kicked =
      check_conflict-groups allowed (before ++ g ∷ rest) new existing _
        (check_groups-first before rest g new existing p v gn ep gp) in
    subst (λ r. contains (evicted r) q ≡ (contains existing q && contains g q)) (sym kicked)
      (contains-filter (contains g) existing q)

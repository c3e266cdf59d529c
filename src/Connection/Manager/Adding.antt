-- ===== src/Connection/Manager/Adding.antt =====
-- Proofs on registering a connection: `add_connection_with_limit` of manager/lifecycle.rs.
use flare_core.Base.{
  ℕ, ◌+◌, ◌<◌, ◌≡◌, refl, ap, Bool, true, false, not, ◌&&◌, Option, none, some, arith, Text,
  text_eq, ◌==◌, if◌then◌else◌, Result, ok, err, is_some, length, leb, Option-cases, inl, inr,
}
use flare_core.Base.Dict.{contains_key}
use flare_core.Device.Registry.Defs.{DeviceOwner, owner_eq}
use flare_core.Connection.Info.{owner}
use flare_core.Connection.Shards.{find, find-insert, remove-insert}
use flare_core.Connection.Shards.Sound.{insert-IsSound, total-insert, shard-healthy}
use flare_core.Connection.Manager.State.{
  Hashers, FlareError, limit_exceeded, ConnectionEntry, ConnectionManager, Outcome, word, fetch_sub,
  reserve_connection_slot, release_connection_slot,
}
use flare_core.Connection.Manager.Users.{
  insert_user_connection, reindex_user_connection, leave_before, enter_after, user_lock_error,
}
use flare_core.Connection.Manager.Index.{IsIndexSound}
use flare_core.Connection.Manager.Reindex.{IsMoved, reindexed}
use flare_core.Connection.Manager.Lifecycle.{
  id_shard, put_entry, drop_entry, finish_insert, index_owner, entry_new, insert_reserved,
  after_reserve, add_connection_with_limit, already_exists,
}
use flare_core.Connection.Manager.Valid.{
  entry_at, IsValid, IsValid-of_moved, IsIndexSound-elsewhere,
}

abbrev pub is_ok : {E A : Type 0} → Result E A → Bool
is_ok (ok a) = true
is_ok (err e) = false

finish_insert-ok :
    (h : Hashers) (id : Text) (r : Outcome (Unit {0})) → is_ok r.1 ≡ true → finish_insert h id r ≡ r
finish_insert-ok h id (m, ok tt) q = refl
finish_insert-ok h id (m, err e) q = cc

-- A reserved slot.
abbrev with_slot : ConnectionManager → ConnectionManager
with_slot m = record m { connection_count = m.connection_count + 1 }

release-with_slot :
    (m : ConnectionManager) → m.connection_count < word → release_connection_slot (with_slot m) ≡ m
unfolding release_connection_slot
release-with_slot m b =
    let same : fetch_sub (m.connection_count + 1) 1 ≡ m.connection_count = omega (arith, b) in
    ap (λ c. record m { connection_count = c }) same

insert_user_connection-failed :
    (h : Hashers) (m : ConnectionManager) (o : DeviceOwner) (id : Text)
    → is_ok (insert_user_connection h m o id).1 ≡ false
    → insert_user_connection h m o id ≡ (m, err user_lock_error)
unfolding insert_user_connection
insert_user_connection-failed h m o id f = ground arith

module _ (h : Hashers) (m : ConnectionManager) (id : Text) (entry : ConnectionEntry) where
  -- The slot and the entry are given back.
  rolled_back :
      m.connection_count < word
      → 0 < length m.connection_shards
      → contains_key id (id_shard h m id).entries ≡ false
      → release_connection_slot (drop_entry h (put_entry h (with_slot m) id entry) id) ≡ m
  unfolding release_connection_slot
  rolled_back b n absent =
      rw (remove-insert h.hash_id m.connection_shards id entry n absent) (release-with_slot m b)

  failed-index_owner :
      (o : Option DeviceOwner) (e : FlareError)
      → m.connection_count < word
      → 0 < length m.connection_shards
      → contains_key id (id_shard h m id).entries ≡ false
      → (index_owner h (put_entry h (with_slot m) id entry) id o).1 ≡ err e
      → (index_owner h (put_entry h (with_slot m) id entry) id o).0 ≡ m
  failed-index_owner none e b n absent f = cc
  failed-index_owner (some o) e b n absent f =
      let k = put_entry h (with_slot m) id entry in
      ground (
        arith,
        finish_insert-ok h id (insert_user_connection h k o id),
        insert_user_connection-failed h k o id,
        rolled_back b n absent,
      )

  failed-insert_reserved :
      (e : FlareError)
      → m.connection_count < word
      → 0 < length m.connection_shards
      → (insert_reserved h (with_slot m) id entry).1 ≡ err e
      → (insert_reserved h (with_slot m) id entry).0 ≡ m
  unfolding insert_reserved
  failed-insert_reserved e b n f =
      ground (arith, release-with_slot m b, failed-index_owner (owner entry.info) e b n)

-- From any manager with fewer than 2^64 connections and at least one shard, a registration that
-- fails leaves the manager exactly as it was, whichever of the limit, a poisoned lock, a taken id
-- or the user index made it fail.
pub add_connection-atomic :
    (h : Hashers) (m : ConnectionManager) (now unix : ℕ) (id : Text) (connection writer : ℕ)
    (user : Option Text) (requires_auth : Bool) (max_connections : ℕ) (e : FlareError)
    → m.connection_count < word
    → 0 < length m.connection_shards
    → (add_connection_with_limit h m now unix id connection writer user requires_auth
        max_connections).1
      ≡ err e
    → (add_connection_with_limit h m now unix id connection writer user requires_auth
        max_connections).0
      ≡ m
unfolding add_connection_with_limit after_reserve reserve_connection_slot
add_connection-atomic h m now unix id connection writer user requires_auth max_connections e b n f =
    ground (
      arith,
      failed-insert_reserved h m id (entry_new h now unix id connection writer user requires_auth) e
          b n,
    )

-- On a valid manager.
module _ (h : Hashers) (m : ConnectionManager) (id : Text) (entry : ConnectionEntry)
    (v : IsValid h m) where
  abbrev placed : ConnectionManager
  placed = put_entry h (with_slot m) id entry

  placed-index : IsIndexSound h placed
  placed-index =
      IsIndexSound-elsewhere placed.connection_shards placed.connection_count placed.closed_writers
        v.index

  IsMoved-placed :
      entry_at h m id ≡ none
      → let (k, r) = reindex_user_connection h placed id none (owner entry.info) in
        IsMoved h placed id (owner entry.info) k r
  IsMoved-placed absent =
      reindexed h placed id placed-index none (owner entry.info)
        (λ p. ground (arith, v.indexed p id))

  index_owner-placed :
      (o : Option DeviceOwner)
      → (reindex_user_connection h placed id none o).1 ≡ ok tt
      → index_owner h placed id o ≡ reindex_user_connection h placed id none o
  unfolding reindex_user_connection leave_before enter_after
  index_owner-placed none q = refl
  index_owner-placed (some o) q =
      ground (arith, finish_insert-ok h id (insert_user_connection h placed o id))

  entry_at-placed :
      (j : Text) → entry_at h placed j ≡ (if id == j then some entry else entry_at h m j)
  entry_at-placed j = find-insert h.hash_id m.connection_shards id j entry v.entries.nonempty

  insert_reserved-absent :
      entry_at h m id ≡ none
      → insert_reserved h (with_slot m) id entry
        ≡ reindex_user_connection h placed id none (owner entry.info)
  unfolding insert_reserved find
  insert_reserved-absent absent = ground (
    arith,
    shard-healthy h.hash_id m.connection_shards id v.entries,
    index_owner-placed (owner entry.info) (IsMoved-placed absent).succeeded,
  )

  insert_reserved-present :
      (f : ConnectionEntry)
      → entry_at h m id ≡ some f
      → insert_reserved h (with_slot m) id entry ≡ (m, err (already_exists id))
  unfolding insert_reserved find
  insert_reserved-present f q = ground (
    arith,
    shard-healthy h.hash_id m.connection_shards id v.entries,
    release-with_slot m v.bounded,
  )

  pub insert_reserved-IsValid :
      m.connection_count + 1 < word → IsValid h (insert_reserved h (with_slot m) id entry).0
  insert_reserved-IsValid b = elim (Option-cases (entry_at h m id)) [
    | inl q ↦ rw (insert_reserved-absent q) (
        IsValid-of_moved h m placed _ id (some entry)
          (insert-IsSound h.hash_id m.connection_shards id entry v.entries) entry_at-placed refl
          (ground (arith, v.counted, total-insert h.hash_id m.connection_shards id entry v.entries))
          b v (IsMoved-placed q))
    | inr (f, q) ↦ rw (insert_reserved-present f q) v
  ]

  insert_reserved-result :
      (insert_reserved h (with_slot m) id entry).1
      ≡ (if is_some (entry_at h m id) then err (already_exists id) else ok tt)
  insert_reserved-result = elim (Option-cases (entry_at h m id)) [
    | inl q ↦ rw (insert_reserved-absent q, q) (IsMoved-placed q).succeeded
    | inr (f, q) ↦ rw (insert_reserved-present f q, q) refl
  ]

  entry_at-insert_reserved :
      (j : Text)
      → entry_at h (insert_reserved h (with_slot m) id entry).0 j
        ≡ (if not (is_some (entry_at h m id)) && (id == j) then some entry else entry_at h m j)
  entry_at-insert_reserved j = elim (Option-cases (entry_at h m id)) [
    | inl q ↦ ground (
      arith,
      insert_reserved-absent q,
      (IsMoved-placed q).elsewhere.same_entries,
      entry_at-placed j,
    )
    | inr (f, q) ↦ ground (arith, insert_reserved-present f q)
  ]

module _ (h : Hashers) (m : ConnectionManager) (now unix : ℕ) (id : Text) (connection writer : ℕ)
    (user : Option Text) (requires_auth : Bool) (max_connections : ℕ) (v : IsValid h m) where
  abbrev added : Outcome (Unit {0})
  added =
      add_connection_with_limit h m now unix id connection writer user requires_auth max_connections

  abbrev new_entry : ConnectionEntry
  new_entry = entry_new h now unix id connection writer user requires_auth

  -- With a limit below 2^64 a registration keeps a valid manager valid.
  pub add_connection-IsValid : max_connections < word → IsValid h added.0
  unfolding add_connection_with_limit after_reserve reserve_connection_slot
  add_connection-IsValid b = ground (arith, insert_reserved-IsValid h m id new_entry v)

  -- On a valid manager a registration fails with the limit exactly when the count has reached it,
  -- else because the id is taken exactly when it is, and else succeeds.
  add_connection-result : added.1 ≡ (
      if leb max_connections m.connection_count
      then err (limit_exceeded max_connections)
      else if is_some (entry_at h m id)
      then err (already_exists id)
      else ok tt)
  unfolding add_connection_with_limit after_reserve reserve_connection_slot
  add_connection-result = ground (arith, insert_reserved-result h m id new_entry v)

  -- On a valid manager a registration that succeeds enters the new connection under its id, and
  -- changes no other entry; one that fails changes none.
  pub entry_at-add_connection :
      (j : Text)
      → entry_at h added.0 j
        ≡ (if is_ok added.1 && (id == j) then some new_entry else entry_at h m j)
  unfolding add_connection_with_limit after_reserve reserve_connection_slot
  entry_at-add_connection j = ground (
    arith,
    entry_at-insert_reserved h m id new_entry v j,
    insert_reserved-result h m id new_entry v,
  )

-- ===== src/Connection/Manager/Removing.antt =====
-- Proofs on removing a connection: `remove_connection` of the manager and of `ConnectionRemovalRegistry`.
use flare_core.Base.{
  ℕ, ◌≡◌, refl, true, false, List, ◌∷◌, Option, none, some, arith, Text, text_eq, text_beq_iff,
  ◌==◌, if◌then◌else◌, nat_eq, nat_beq_iff, ok, err, is_some, contains, Option-cases, inl, inr,
}
use flare_core.Device.Registry.Defs.{DeviceOwner, owner_eq}
use flare_core.Device.Registry.Consistency.{is_owner}
use flare_core.Connection.Info.{owner}
use flare_core.Connection.Shards.{find, find-remove}
use flare_core.Connection.Shards.Sound.{remove-IsSound, total-remove, shard-healthy}
use flare_core.Connection.Manager.State.{
  Hashers, ConnectionEntry, ConnectionManager, fetch_sub, release_connection_slot, close_writer,
}
use flare_core.Connection.Manager.Index.{users_of, IsIndexSound}
use flare_core.Connection.Manager.Reindex.{IsMoved, removed, unmoved}
use flare_core.Connection.Manager.Lifecycle.{
  drop_entry, unindex_owner, remove_connection, registry_remove_connection, not_found,
}
use flare_core.Connection.Manager.Valid.{
  entry_at, IsValid, IsValid-of_moved, IsIndexSound-elsewhere,
}

-- The manager after the entry is taken out, with the slot given back.
abbrev taken : Hashers → ConnectionManager → Text → List ℕ → ConnectionManager
taken h m id closed = record (drop_entry h m id) {
  connection_count = fetch_sub m.connection_count 1;
  closed_writers = closed;
}

abbrev closing : List ℕ → ℕ → List ℕ
closing closed w = if contains closed w then closed else w ∷ closed

module _ (h : Hashers) (m : ConnectionManager) (id : Text) (closed : List ℕ) (v : IsValid h m) where
  abbrev left : ConnectionManager
  left = taken h m id closed

  left-index : IsIndexSound h left
  left-index =
      IsIndexSound-elsewhere left.connection_shards left.connection_count left.closed_writers
        v.index

  IsMoved-unindexed :
      (o : Option DeviceOwner)
      → ((p : DeviceOwner) → contains (users_of h left p) id ≡ is_owner p o)
      → let (k, r) = unindex_owner h left id o in IsMoved h left id none k r
  IsMoved-unindexed none f = unmoved h left id left-index none f
  IsMoved-unindexed (some o) f = removed h left id left-index o f

  IsMoved-left :
      (e : ConnectionEntry)
      → entry_at h m id ≡ some e
      → let (k, r) = unindex_owner h left id (owner e.info) in IsMoved h left id none k r
  IsMoved-left e q = IsMoved-unindexed (owner e.info) (λ p. ground (arith, v.indexed p id))

  entry_at-left : (j : Text) → entry_at h left j ≡ (if id == j then none else entry_at h m j)
  entry_at-left j = find-remove h.hash_id m.connection_shards id j v.entries.nonempty

  left-IsValid :
      (e : ConnectionEntry)
      → entry_at h m id ≡ some e
      → IsValid h (unindex_owner h left id (owner e.info)).0
  left-IsValid e q =
      let size = total-remove h.hash_id m.connection_shards id v.entries in
      IsValid-of_moved h m left _ id none
        (remove-IsSound h.hash_id m.connection_shards id v.entries) entry_at-left refl
        (ground (arith, size, v.counted, v.bounded)) (omega arith) v (IsMoved-left e q)

  entry_at-taken :
      (e : ConnectionEntry) (j : Text)
      → entry_at h m id ≡ some e
      → entry_at h (unindex_owner h left id (owner e.info)).0 j
        ≡ (if id == j then none else entry_at h m j)
  entry_at-taken e j q = ground (arith, (IsMoved-left e q).elsewhere.same_entries, entry_at-left j)

module _ (h : Hashers) (m : ConnectionManager) (id : Text) (v : IsValid h m) where
  remove_connection-missing :
      entry_at h m id ≡ none → remove_connection h m id ≡ (m, err (not_found id))
  unfolding remove_connection find
  remove_connection-missing q =
      ground (arith, shard-healthy h.hash_id m.connection_shards id v.entries)

  remove_connection-found :
      (e : ConnectionEntry)
      → entry_at h m id ≡ some e
      → remove_connection h m id
        ≡ unindex_owner h (taken h m id (closing m.closed_writers e.writer)) id (owner e.info)
  unfolding remove_connection find release_connection_slot close_writer
  remove_connection-found e q =
      ground (arith, shard-healthy h.hash_id m.connection_shards id v.entries)

  registry_remove-missing : entry_at h m id ≡ none → registry_remove_connection h m id ≡ (m, false)
  unfolding registry_remove_connection find
  registry_remove-missing q =
      ground (arith, shard-healthy h.hash_id m.connection_shards id v.entries)

  registry_remove-found :
      (e : ConnectionEntry)
      → entry_at h m id ≡ some e
      → registry_remove_connection h m id
        ≡ ((unindex_owner h (taken h m id m.closed_writers) id (owner e.info)).0, true)
  unfolding registry_remove_connection find release_connection_slot
  registry_remove-found e q =
      ground (arith, shard-healthy h.hash_id m.connection_shards id v.entries)

  -- Removing a connection keeps a valid manager valid.
  pub remove_connection-IsValid : IsValid h (remove_connection h m id).0
  remove_connection-IsValid = elim (Option-cases (entry_at h m id)) [
    | inl q ↦ rw (remove_connection-missing q) v
    | inr (e, q) ↦ rw (remove_connection-found e q) (left-IsValid h m id _ v e q)
  ]

  -- A removal from a valid manager succeeds exactly on a registered id.
  pub remove_connection-result :
      (remove_connection h m id).1
      ≡ (if is_some (entry_at h m id) then ok tt else err (not_found id))
  remove_connection-result = elim (Option-cases (entry_at h m id)) [
    | inl q ↦ rw (remove_connection-missing q, q) refl
    | inr (e, q) ↦ rw (remove_connection-found e q, q) (IsMoved-left h m id _ v e q).succeeded
  ]

  -- After a removal from a valid manager the id is free and every other connection is as it was.
  pub entry_at-remove_connection :
      (j : Text)
      → entry_at h (remove_connection h m id).0 j ≡ (if id == j then none else entry_at h m j)
  entry_at-remove_connection j = elim (Option-cases (entry_at h m id)) [
    | inl q ↦ ground (arith, remove_connection-missing q, text_beq_iff id j)
    | inr (e, q) ↦ ground (
      arith,
      remove_connection-found e q,
      entry_at-taken h m id (closing m.closed_writers e.writer) v e j q,
    )
  ]

  -- The write queue of a connection that is removed from a valid manager has been told to close.
  pub remove_connection-closes :
      (e : ConnectionEntry)
      → entry_at h m id ≡ some e
      → contains (remove_connection h m id).0.closed_writers e.writer ≡ true
  remove_connection-closes e q = ground (
    arith,
    nat_beq_iff e.writer e.writer,
    remove_connection-found e q,
    (IsMoved-left h m id (closing m.closed_writers e.writer) v e q).elsewhere.same_closed,
  )

  -- The writer task's removal: the same entries, and a Boolean in place of the error.
  pub registry_remove-IsValid : IsValid h (registry_remove_connection h m id).0
  registry_remove-IsValid = elim (Option-cases (entry_at h m id)) [
    | inl q ↦ rw (registry_remove-missing q) v
    | inr (e, q) ↦ rw (registry_remove-found e q) (left-IsValid h m id _ v e q)
  ]

  -- The writer task's removal leaves the same entries of a valid manager as the manager's own.
  pub entry_at-registry_remove :
      (j : Text)
      → entry_at h (registry_remove_connection h m id).0 j
        ≡ entry_at h (remove_connection h m id).0 j
  entry_at-registry_remove j = elim (Option-cases (entry_at h m id)) [
    | inl q ↦ ground (arith, registry_remove-missing q, remove_connection-missing q)
    | inr (e, q) ↦ ground (
      arith,
      registry_remove-found e q,
      entry_at-taken h m id m.closed_writers v e j q,
      entry_at-remove_connection j,
    )
  ]

  pub registry_remove-result : (registry_remove_connection h m id).1 ≡ is_some (entry_at h m id)
  registry_remove-result = elim (Option-cases (entry_at h m id)) [
    | inl q ↦ rw (registry_remove-missing q, q) refl
    | inr (e, q) ↦ rw (registry_remove-found e q, q) refl
  ]

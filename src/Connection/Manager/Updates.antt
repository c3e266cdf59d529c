-- ===== src/Connection/Manager/Updates.antt =====
-- Proofs on the common shape of the methods of manager/ops.rs that change a registered connection's
-- information.
use flare_core.Base.{
  ◌≡◌, refl, Option, none, some, arith, Text, text_eq, text_beq_iff, ◌==◌, if◌then◌else◌, ok, err,
  is_some, Option-cases, inl, inr,
}
use flare_core.Connection.Info.{ConnectionInfo, owner}
use flare_core.Connection.Shards.{find, total, find-insert}
use flare_core.Connection.Shards.Sound.{insert-IsSound, total-insert, shard-healthy}
use flare_core.Connection.Manager.State.{Hashers, ConnectionEntry, ConnectionManager}
use flare_core.Connection.Manager.Users.{reindex_user_connection}
use flare_core.Connection.Manager.Reindex.{IsMoved, reindexed}
use flare_core.Connection.Manager.Lifecycle.{not_found}
use flare_core.Connection.Manager.Ops.{update_info, with_entry}
use flare_core.Connection.Manager.Valid.{
  entry_at, IsValid, IsValid-of_moved, IsIndexSound-elsewhere,
}

abbrev pub changed :
    (ConnectionInfo → ConnectionInfo) → Option ConnectionEntry → Option ConnectionEntry
changed f none = none
changed f (some e) = some (record e { info = f e.info })

module _ (h : Hashers) (m : ConnectionManager) (id : Text) (f : ConnectionInfo → ConnectionInfo)
    (v : IsValid h m) where
  update_info-missing : entry_at h m id ≡ none → update_info h m id f ≡ (m, err (not_found id))
  unfolding update_info find
  update_info-missing e = ground (arith, shard-healthy h.hash_id m.connection_shards id v.entries)

  update_info-found :
      (e : ConnectionEntry)
      → entry_at h m id ≡ some e
      → update_info h m id f
        ≡ reindex_user_connection h
            (with_entry h m id e (f e.info))
            id
            (owner e.info)
            (owner (f e.info))
  unfolding update_info find
  update_info-found e q = ground (arith, shard-healthy h.hash_id m.connection_shards id v.entries)

  IsMoved-with_entry :
      (e : ConnectionEntry)
      → entry_at h m id ≡ some e
      → let n = with_entry h m id e (f e.info) in
        let (k, r) = reindex_user_connection h n id (owner e.info) (owner (f e.info)) in
        IsMoved h n id (owner (f e.info)) k r
  IsMoved-with_entry e q =
      let n = with_entry h m id e (f e.info) in
      reindexed h n id
        (IsIndexSound-elsewhere n.connection_shards n.connection_count n.closed_writers v.index)
        (owner e.info) (owner (f e.info)) (λ p. ground (arith, v.indexed p id))

  entry_at-with_entry :
      (e : ConnectionEntry) (i : ConnectionInfo) (j : Text)
      → entry_at h (with_entry h m id e i) j
        ≡ (if id == j then some (record e { info = i }) else entry_at h m j)
  entry_at-with_entry e i j =
      find-insert h.hash_id m.connection_shards id j (record e { info = i }) v.entries.nonempty

  counted-with_entry :
      (e : ConnectionEntry) (i : ConnectionInfo)
      → entry_at h m id ≡ some e
      → m.connection_count ≡ total (with_entry h m id e i).connection_shards
  counted-with_entry e i q = ground (
    arith,
    v.counted,
    total-insert h.hash_id m.connection_shards id (record e { info = i }) v.entries,
  )

  -- A change of a connection's information keeps a valid manager valid: the user index follows the
  -- connection from its owner before to its owner after.
  pub update_info-IsValid : IsValid h (update_info h m id f).0
  update_info-IsValid = elim (Option-cases (entry_at h m id)) [
    | inl q ↦ rw (update_info-missing q) v
    | inr (e, q) ↦ rw (update_info-found e q) (
        IsValid-of_moved h m (with_entry h m id e (f e.info)) _ id
          (some (record e { info = f e.info }))
          (insert-IsSound h.hash_id m.connection_shards id _ v.entries)
          (entry_at-with_entry e (f e.info)) refl (counted-with_entry e (f e.info) q) v.bounded v
          (IsMoved-with_entry e q))
  ]

  pub update_info-result :
      (update_info h m id f).1 ≡ (if is_some (entry_at h m id) then ok tt else err (not_found id))
  update_info-result = elim (Option-cases (entry_at h m id)) [
    | inl q ↦ rw (update_info-missing q, q)
    | inr (e, q) ↦ rw (update_info-found e q, q) (IsMoved-with_entry e q).succeeded
  ]

  -- A change of a connection's information in a valid manager changes that connection alone, and
  -- as asked.
  pub entry_at-update_info :
      (j : Text)
      → entry_at h (update_info h m id f).0 j
        ≡ (if id == j then changed f (entry_at h m id) else entry_at h m j)
  entry_at-update_info j = elim (Option-cases (entry_at h m id)) [
    | inl q ↦ ground (arith, update_info-missing q, text_beq_iff id j)
    | inr (e, q) ↦ ground (
      arith,
      update_info-found e q,
      (IsMoved-with_entry e q).elsewhere.same_entries,
      entry_at-with_entry e (f e.info) j,
    )
  ]

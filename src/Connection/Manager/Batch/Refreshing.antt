-- ===== src/Connection/Manager/Batch/Refreshing.antt =====
-- Proofs on `update_connections_active` of manager/ops.rs.
use flare_core.Base.{
  ℕ, ◌≡◌, refl, subst, ◌∙◌, List, [], ◌∷◌, ◌++◌, Option, none, some, arith, Text, text_eq,
  text_beq_iff, ◌==◌, contains, contains-append, length, length-set, if◌then◌else◌, Option-cases,
  inl, inr,
}
use flare_core.Base.Dict.{insert}
use flare_core.Device.Registry.Defs.{owner_eq}
use flare_core.Connection.Info.{update_active, owner}
use flare_core.Connection.Shards.{
  Shard, index, index-lt, index-same, shard, find, write, find-insert,
}
use flare_core.Connection.Shards.Sound.{insert-IsSound, total-insert}
use flare_core.Connection.Shards.Batches.{run_batch-Inv, contains-batch}
use flare_core.Connection.Manager.State.{Hashers, ConnectionEntry, ConnectionManager}
use flare_core.Connection.Manager.Valid.{entry_at, IsValid, IsIndexSound-elsewhere}
use flare_core.Connection.Manager.Batch.{
  Refresh, refresh_step, refresh_found, refresh_locked, id_index, update_connections_active,
}

-- What is registered, with its last activity set to `now`.
abbrev pub refreshed : ℕ → Option ConnectionEntry → Option ConnectionEntry
refreshed now none = none
refreshed now (some e) = some (record e { info = update_active now e.info })

-- After the activity of the ids `done` has been set.
record IsRefreshed (h : Hashers) (now : ℕ) (m : ConnectionManager) (s : Refresh) (done : List Text)
    : Type 0 where
  pub valid : IsValid h s.manager
  pub size : length s.manager.connection_shards ≡ length m.connection_shards
  pub found :
      (j : Text)
      → entry_at h s.manager j
        ≡ (if contains done j then refreshed now (entry_at h m j) else entry_at h m j)

module _ (h : Hashers) (now : ℕ) (m : ConnectionManager) (s : Refresh) (done : List Text)
    (w : IsRefreshed h now m s done) (id : Text) where
  abbrev shards : List (Shard Text ConnectionEntry)
  shards = s.manager.connection_shards

  abbrev after : ConnectionEntry → Refresh
  after e = refresh_found now (index h.hash_id shards id) s id (some e)

  shards-after :
      (e : ConnectionEntry)
      → (after e).manager.connection_shards
        ≡ write h.hash_id shards id (
            insert id
              (record e { info = update_active now e.info })
              (shard h.hash_id shards id).entries)
  unfolding write shard
  shards-after e = refl

  entry_at-after :
      (e : ConnectionEntry) (j : Text)
      → entry_at h (after e).manager j ≡ (
          if id == j
          then some (record e { info = update_active now e.info })
          else entry_at h s.manager j)
  entry_at-after e j = ground (
    arith,
    shards-after e,
    find-insert h.hash_id shards id j (record e { info = update_active now e.info })
        w.valid.entries.nonempty,
  )

  IsValid-after :
      (e : ConnectionEntry) → entry_at h s.manager id ≡ some e → IsValid h (after e).manager
  unfolding update_active owner
  IsValid-after e q = record {
    entries = rw (shards-after e) (insert-IsSound h.hash_id shards id _ w.valid.entries);
    index =
        IsIndexSound-elsewhere (after e).manager.connection_shards s.manager.connection_count
          s.manager.closed_writers w.valid.index;
    indexed = λ o j. ground (arith, text_beq_iff id j, entry_at-after e j, w.valid.indexed o j);
    counted = ground (
      arith,
      shards-after e,
      total-insert h.hash_id shards id (record e { info = update_active now e.info })
          w.valid.entries,
      w.valid.counted,
    );
    bounded = w.valid.bounded;
  }

  IsRefreshed-missing : entry_at h s.manager id ≡ none → IsRefreshed h now m s (done ++ id ∷ [])
  unfolding update_active
  IsRefreshed-missing q = record {
    valid = w.valid;
    size = w.size;
    found = λ j.
        ground (arith, contains-append done (id ∷ []) j, text_beq_iff id j, w.found j, w.found id);
  }

  IsRefreshed-after :
      (e : ConnectionEntry)
      → entry_at h s.manager id ≡ some e
      → IsRefreshed h now m (after e) (done ++ id ∷ [])
  unfolding update_active
  IsRefreshed-after e q = record {
    valid = IsValid-after e q;
    size = length-set shards _ _ ∙ w.size;
    found = λ j. ground (
      arith,
      contains-append done (id ∷ []) j,
      text_beq_iff id j,
      entry_at-after e j,
      w.found j,
      w.found id,
    );
  }

  IsRefreshed-step : IsRefreshed h now m (refresh_step now (id_index h m id) s id) (done ++ id ∷ [])
  unfolding find shard
  IsRefreshed-step =
      subst (λ i. IsRefreshed h now m (refresh_step now i s id) (done ++ id ∷ []))
        (index-same h.hash_id shards m.connection_shards id w.size)
        (elim (Option-cases (entry_at h s.manager id)) [
          | inl q ↦ rw q (IsRefreshed-missing q)
          | inr (e, q) ↦ rw q (IsRefreshed-after e q)
        ])

module _ (h : Hashers) (now : ℕ) (m : ConnectionManager) (v : IsValid h m) (ids : List Text) where
  -- After an update of the activity of some ids in a valid manager, exactly those of them that are
  -- registered have been active now, nothing else has changed in an entry, and the manager is
  -- valid.
  pub update_connections_active-IsValid :
      IsValid h (update_connections_active h now m ids).manager
      × ((j : Text)
          → entry_at h (update_connections_active h now m ids).manager j
            ≡ (if contains ids j then refreshed now (entry_at h m j) else entry_at h m j))
  unfolding update_connections_active
  update_connections_active-IsValid =
      let start : Refresh = record { manager = m; updated = 0 } in
      let w =
        run_batch-Inv (refresh_step now) refresh_locked (id_index h m) (IsRefreshed h now m)
          (λ i s done w. w.valid.entries.healthy i)
          (λ s done id w. IsRefreshed-step h now m s done w id) (length m.connection_shards) start
          ids (record { valid = v; size = refl; found = λ j. refl }) in
      (
        w.valid,
        λ j. ground (
          arith,
          w.found j,
          contains-batch (length m.connection_shards) (id_index h m) ids j
              (λ k. index-lt h.hash_id m.connection_shards k v.entries.nonempty),
        ),
      )

-- ===== src/Connection/Manager/Batch/Removing.antt =====
-- Proofs on the first loop of `remove_connection_snapshots` of manager/lifecycle.rs.
use flare_core.Base.{
  suc, ◌+◌, ◌≤◌, ◌≡◌, refl, subst, ◌∙◌, ◌&&◌, ◌||◌, List, [], ◌∷◌, ◌++◌, Option, none, some, arith,
  Text, text_eq, text_beq_iff, ◌==◌, pair_eq, contains, contains-append, Distinct, Distinct-append,
  length, length-append, length-set, replicate, if◌then◌else◌, is_some, Option-cases, inl, inr,
}
use flare_core.Base.Dict.{remove}
use flare_core.Device.Registry.Defs.{DeviceOwner, owner_eq, owner_beq_iff}
use flare_core.Device.Registry.Consistency.{is_owner}
use flare_core.Connection.Info.{owner}
use flare_core.Connection.Shards.{Shard, total, index, index-same, shard, find, write, find-remove}
use flare_core.Connection.Shards.Sound.{IsSound, remove-IsSound, total-remove}
use flare_core.Connection.Shards.Batches.{bucketed, concat, run_batch-Inv}
use flare_core.Connection.Manager.State.{Hashers, ConnectionEntry, ConnectionManager, close_writer}
use flare_core.Connection.Manager.Valid.{entry_at, owner_of, IsValid}
use flare_core.Connection.Manager.Batch.{
  Removal, remove_step, remove_found, removal_locked, add_owner, id_index, removed_from,
}

-- After the ids `done` have been taken out of the shards of `m`.
pub record IsTaken (h : Hashers) (m : ConnectionManager) (s : Removal) (done : List Text)
    : Type 0 where
  pub sound : IsSound h.hash_id s.manager.connection_shards
  pub size : length s.manager.connection_shards ≡ length m.connection_shards
  pub same_users : s.manager.user_connection_shards ≡ m.user_connection_shards
  pub same_user_count : s.manager.user_count ≡ m.user_count
  pub same_count : s.manager.connection_count ≡ m.connection_count
  pub found :
      (j : Text) → entry_at h s.manager j ≡ (if contains done j then none else entry_at h m j)
  pub rest : total s.manager.connection_shards + length s.removed_ids ≡ total m.connection_shards
  pub ids : (j : Text) → contains s.removed_ids j ≡ (contains done j && is_some (entry_at h m j))
  pub once : Distinct s.removed_ids
  pub pairs :
      (o : DeviceOwner) (j : Text)
      → contains s.removed_user_connections (o, j)
        ≡ (contains done j && is_owner o (owner_of (entry_at h m j)))
  pub few : length s.removed_user_connections ≤ length s.removed_ids

contains-add_owner :
    (pairs : List (DeviceOwner × Text)) (p : Option DeviceOwner) (id : Text) (o : DeviceOwner)
    (j : Text)
    → contains (add_owner pairs p id) (o, j)
      ≡ (contains pairs (o, j) || (is_owner o p && (id == j)))
contains-add_owner pairs none id o j = ground arith
contains-add_owner pairs (some p) id o j =
    ground
      (arith, contains-append pairs ((p, id) ∷ []) (o, j), owner_beq_iff o p, owner_beq_iff p o)

length-add_owner :
    (pairs : List (DeviceOwner × Text)) (p : Option DeviceOwner) (id : Text)
    → length (add_owner pairs p id) ≤ suc (length pairs)
length-add_owner pairs none id = omega arith
length-add_owner pairs (some p) id = omega (arith, length-append pairs ((p, id) ∷ []))

module _ (h : Hashers) (m : ConnectionManager) (s : Removal) (done : List Text)
    (w : IsTaken h m s done) (id : Text) where
  abbrev shards : List (Shard Text ConnectionEntry)
  shards = s.manager.connection_shards

  -- The entry of `id` is gone already.
  IsTaken-missing : entry_at h s.manager id ≡ none → IsTaken h m s (done ++ id ∷ [])
  IsTaken-missing q = record {
    sound = w.sound;
    size = w.size;
    same_users = w.same_users;
    same_user_count = w.same_user_count;
    same_count = w.same_count;
    found = λ j.
        ground (arith, contains-append done (id ∷ []) j, text_beq_iff id j, w.found j, w.found id);
    rest = w.rest;
    ids = λ j.
        ground (arith, contains-append done (id ∷ []) j, text_beq_iff id j, w.ids j, w.found id);
    once = w.once;
    pairs = λ o j.
        ground
          (arith, contains-append done (id ∷ []) j, text_beq_iff id j, w.pairs o j, w.found id);
    few = w.few;
  }

  abbrev after : ConnectionEntry → Removal
  after e = remove_found (index h.hash_id shards id) s id (some e)

  shards-after :
      (e : ConnectionEntry)
      → (after e).manager.connection_shards
        ≡ write h.hash_id shards id (remove id (shard h.hash_id shards id).entries)
  unfolding write shard close_writer
  shards-after e = refl

  IsTaken-after :
      (e : ConnectionEntry)
      → entry_at h s.manager id ≡ some e
      → IsTaken h m (after e) (done ++ id ∷ [])
  unfolding close_writer
  IsTaken-after e q = record {
    sound = rw (shards-after e) (remove-IsSound h.hash_id shards id w.sound);
    size = length-set shards _ _ ∙ w.size;
    same_users = w.same_users;
    same_user_count = w.same_user_count;
    same_count = w.same_count;
    found = λ j. ground (
      arith,
      contains-append done (id ∷ []) j,
      shards-after e,
      find-remove h.hash_id shards id j w.sound.nonempty,
      w.found j,
    );
    rest = ground (
      arith,
      shards-after e,
      total-remove h.hash_id shards id w.sound,
      length-append s.removed_ids (id ∷ []),
      w.rest,
    );
    ids = λ j. ground (
      arith,
      contains-append done (id ∷ []) j,
      contains-append s.removed_ids (id ∷ []) j,
      text_beq_iff id j,
      w.ids j,
      w.found id,
    );
    once =
        Distinct-append s.removed_ids (id ∷ []) w.once (refl, tt)
          (λ j p. ground (arith, text_beq_iff id j, w.ids j, w.found id));
    pairs = λ o j. ground (
      arith,
      contains-append done (id ∷ []) j,
      contains-add_owner s.removed_user_connections (owner e.info) id o j,
      text_beq_iff id j,
      w.pairs o j,
      w.found id,
    );
    few = ground (
      arith,
      length-append s.removed_ids (id ∷ []),
      length-add_owner s.removed_user_connections (owner e.info) id,
      w.few,
    );
  }

  IsTaken-step : IsTaken h m (remove_step (id_index h m id) s id) (done ++ id ∷ [])
  unfolding find shard
  IsTaken-step =
      subst (λ i. IsTaken h m (remove_step i s id) (done ++ id ∷ []))
        (index-same h.hash_id shards m.connection_shards id w.size)
        (elim (Option-cases (entry_at h s.manager id)) [
          | inl q ↦ rw q (IsTaken-missing q)
          | inr (e, q) ↦ rw q (IsTaken-after e q)
        ])

module _ (h : Hashers) (m : ConnectionManager) (v : IsValid h m) (ids : List Text) where
  start : Removal
  start = record { manager = m; removed_ids = []; removed_user_connections = [] }

  IsTaken-start : IsTaken h m start []
  unfolding start
  IsTaken-start = record {
    sound = v.entries;
    size = refl;
    same_users = refl;
    same_user_count = refl;
    same_count = refl;
    found = λ j. refl;
    rest = omega arith;
    ids = λ j. refl;
    once = tt;
    pairs = λ o j. refl;
    few = omega arith;
  }

  pub removed_from-IsTaken :
      IsTaken h m
        (removed_from h m ids)
        (concat (bucketed (id_index h m) (replicate (length m.connection_shards) []) ids))
  unfolding removed_from start
  removed_from-IsTaken =
      run_batch-Inv remove_step removal_locked (id_index h m) (IsTaken h m)
        (λ i s done w. w.sound.healthy i) (λ s done id w. IsTaken-step h m s done w id)
        (length m.connection_shards) start ids IsTaken-start

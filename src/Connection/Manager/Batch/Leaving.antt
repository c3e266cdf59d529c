-- ===== src/Connection/Manager/Batch/Leaving.antt =====
-- Proofs on `remove_user_connections_batch` of manager/lifecycle.rs.
use flare_core.Base.{
  ℕ, ◌+◌, ◌%◌, ◌≤◌, ◌<◌, ◌≡◌, refl, sym, subst, ◌∙◌, not, ◌&&◌, List, [], ◌∷◌, ◌++◌, arith, Text,
  text_eq, pair_eq, contains, contains-append, length, length-append, length-set, replicate,
}
use flare_core.Device.Registry.Defs.{DeviceOwner, owner_eq}
use flare_core.Connection.Shards.{total, index, index-lt, index-same, shard, write}
use flare_core.Connection.Shards.Batches.{
  bucketed, concat, run_batch-Inv, contains-batch, length-batch,
}
use flare_core.Connection.Manager.State.{Hashers, ConnectionManager, word}
use flare_core.Connection.Manager.Users.{remove_user_connection}
use flare_core.Connection.Manager.Index.{
  users_of, IsIndexSound, IsElsewhereSame, total_users-remove, shards-remove_index,
  contains-users_of-remove, remove_user_connection-IsIndexSound,
}
use flare_core.Connection.Manager.Batch.{
  UserRemoval, leave_step, leave_locked, owner_index, left_by, sub_unless_zero,
  remove_user_connections_batch,
}

-- The manager with the count that its user index calls for.
abbrev recounted : ConnectionManager → ConnectionManager
recounted m = record m { user_count = total m.user_connection_shards % word }

-- After the pairs `done` have been taken out of the index of `m`.
record IsLeft (h : Hashers) (m : ConnectionManager) (s : UserRemoval)
    (done : List (DeviceOwner × Text)) : Type 0 where
  pub index : IsIndexSound h (recounted s.manager)
  pub size : length s.manager.user_connection_shards ≡ length m.user_connection_shards
  pub elsewhere : IsElsewhereSame m s.manager
  pub uncounted : s.manager.user_count ≡ m.user_count
  pub held :
      (o : DeviceOwner) (j : Text)
      → contains (users_of h s.manager o) j
        ≡ (contains (users_of h m o) j && not (contains done (o, j)))
  pub gone : s.gone + total s.manager.user_connection_shards ≡ total m.user_connection_shards
  pub few : s.gone ≤ length done

module _ (h : Hashers) where
  next : UserRemoval → DeviceOwner × Text → UserRemoval
  next s p = leave_step (index h.hash_owner s.manager.user_connection_shards p.0) s p

  shards-next :
      (s : UserRemoval) (o : DeviceOwner) (id : Text)
      → IsIndexSound h (recounted s.manager)
      → (next s (o, id)).manager.user_connection_shards
        ≡ (remove_user_connection h (recounted s.manager) o id).0.user_connection_shards
  unfolding next write shard
  shards-next s o id w = sym (shards-remove_index h (recounted s.manager) o id w)

  total-next :
      (s : UserRemoval) (o : DeviceOwner) (id : Text)
      → IsIndexSound h (recounted s.manager)
      → (next s (o, id)).gone + total (next s (o, id)).manager.user_connection_shards
        ≡ s.gone + total s.manager.user_connection_shards
  unfolding next shard
  total-next s o id w =
      ground (arith, shards-next s o id w, total_users-remove h (recounted s.manager) o id w)

  IsIndexSound-recounted :
      (n k : ConnectionManager)
      → IsIndexSound h n
      → k.user_connection_shards ≡ n.user_connection_shards
      → IsIndexSound h (recounted k)
  IsIndexSound-recounted n k v e = record {
    sound = rw e v.sound;
    occupied = λ o. rw e (v.occupied o);
    single = λ o. rw e (v.single o);
    counted = refl;
  }

  module _ (m : ConnectionManager) (s : UserRemoval) (done : List (DeviceOwner × Text))
      (w : IsLeft h m s done) where
    IsLeft-next : (p : DeviceOwner × Text) → IsLeft h m (next s p) (done ++ p ∷ [])
    unfolding next
    IsLeft-next (o, id) = record {
      index =
          IsIndexSound-recounted _ (next s (o, id)).manager
            (remove_user_connection-IsIndexSound h (recounted s.manager) o id w.index)
            (shards-next s o id w.index);
      size = length-set s.manager.user_connection_shards _ _ ∙ w.size;
      elsewhere = record {
        same_entries = w.elsewhere.same_entries;
        same_count = w.elsewhere.same_count;
        same_closed = w.elsewhere.same_closed;
      };
      uncounted = w.uncounted;
      held = λ q j. ground (
        arith,
        contains-append done ((o, id) ∷ []) (q, j),
        shards-next s o id w.index,
        contains-users_of-remove h (recounted s.manager) o id w.index q j,
        w.held q j,
      );
      gone = total-next s o id w.index ∙ w.gone;
      few = ground (arith, length-append done ((o, id) ∷ []), w.few);
    }

    IsLeft-step :
        (p : DeviceOwner × Text) → IsLeft h m (leave_step (owner_index h m p) s p) (done ++ p ∷ [])
    unfolding next
    IsLeft-step p =
        subst (λ i. IsLeft h m (leave_step i s p) (done ++ p ∷ []))
          (index-same h.hash_owner s.manager.user_connection_shards m.user_connection_shards p.0
            w.size)
          (IsLeft-next p)

-- After a batch of pairs has left the index of `m`.
pub record IsBatchLeft (h : Hashers) (m : ConnectionManager) (pairs : List (DeviceOwner × Text))
    (n : ConnectionManager) : Type 0 where
  pub index : IsIndexSound h n
  pub elsewhere : IsElsewhereSame m n
  pub held :
      (o : DeviceOwner) (j : Text)
      → contains (users_of h n o) j ≡ (contains (users_of h m o) j && not (contains pairs (o, j)))

module _ (h : Hashers) (m : ConnectionManager) (v : IsIndexSound h m)
    (pairs : List (DeviceOwner × Text)) where
  abbrev order : List (DeviceOwner × Text)
  order = concat (bucketed (owner_index h m) (replicate (length m.user_connection_shards) []) pairs)

  at_start : IsLeft h m (record { manager = m; gone = 0 }) []
  at_start = record {
    index = IsIndexSound-recounted h m m v refl;
    size = refl;
    elsewhere = record { same_entries = refl; same_count = refl; same_closed = refl };
    uncounted = refl;
    held = λ o j. ground arith;
    gone = omega arith;
    few = omega arith;
  }

  IsLeft-left_by : IsLeft h m (left_by h m pairs) order
  unfolding left_by
  IsLeft-left_by =
      run_batch-Inv leave_step leave_locked (owner_index h m) (IsLeft h m)
        (λ i s done w. w.index.sound.healthy i) (λ s done p w. IsLeft-step h m s done w p)
        (length m.user_connection_shards) (record { manager = m; gone = 0 }) pairs at_start

  counted_back :
      (s : UserRemoval) (c t u : ℕ)
      → c ≡ t % word
      → s.gone + u ≡ t
      → s.gone < word
      → sub_unless_zero c s.gone ≡ u % word
  counted_back s c t u e f g = ground arith

  -- The batch takes exactly its pairs out of the index, and counts the owners that are gone.
  pub remove_user_connections_batch-IsBatchLeft :
      length pairs < word → IsBatchLeft h m pairs (remove_user_connections_batch h m pairs)
  unfolding remove_user_connections_batch
  remove_user_connections_batch-IsBatchLeft small =
      let w = IsLeft-left_by in
      let s = left_by h m pairs in
      let in_range = λ (p : DeviceOwner × Text).
        index-lt h.hash_owner m.user_connection_shards p.0 v.sound.nonempty in
      let n = length m.user_connection_shards in
      record {
        index = record {
          sound = w.index.sound;
          occupied = w.index.occupied;
          single = w.index.single;
          counted =
              counted_back s s.manager.user_count (total m.user_connection_shards) _
                (w.uncounted ∙ v.counted) w.gone
                (omega (arith, w.few, length-batch n (owner_index h m) pairs in_range));
        };
        elsewhere = record {
          same_entries = w.elsewhere.same_entries;
          same_count = w.elsewhere.same_count;
          same_closed = w.elsewhere.same_closed;
        };
        held = λ o j.
            ground (arith, w.held o j, contains-batch n (owner_index h m) pairs (o, j) in_range);
      }

-- ===== src/Connection/Manager/Valid.antt =====
-- The invariant of the connection manager, for the proofs on its operations.
use flare_core.Base.{
  ℕ, ◌%◌, ◌<◌, ◌≡◌, refl, sym, List, Option, none, some, arith, Text, text_eq, text_beq_iff, ◌==◌,
  if◌then◌else◌, contains, Result, replicate,
}
use flare_core.Device.Registry.Defs.{DeviceOwner, owner_eq}
use flare_core.Device.Registry.Consistency.{is_owner}
use flare_core.Connection.Info.{owner}
use flare_core.Connection.Shards.{Shard, fresh, find, total}
use flare_core.Connection.Shards.Sound.{IsSound, replicate-IsSound, find-replicate, total-replicate}
use flare_core.Connection.Manager.State.{
  Hashers, FlareError, ConnectionEntry, ConnectionManager, word, with_write_queue_limits,
  connection_shard_count, user_connection_shard_count,
}
use flare_core.Connection.Manager.Index.{users_of, IsIndexSound}
use flare_core.Connection.Manager.Reindex.{IsMoved}

-- The connection registered under an id.
abbrev pub entry_at : Hashers → ConnectionManager → Text → Option ConnectionEntry
entry_at h m id = find h.hash_id m.connection_shards id

abbrev pub owner_of : Option ConnectionEntry → Option DeviceOwner
owner_of none = none
owner_of (some e) = owner e.info

pub record IsValid (h : Hashers) (m : ConnectionManager) : Type 0 where
  pub entries : IsSound h.hash_id m.connection_shards
  pub index : IsIndexSound h m
  -- The user index lists a connection under an owner exactly when its information names that owner.
  pub indexed :
      (o : DeviceOwner) (id : Text)
      → contains (users_of h m o) id ≡ is_owner o (owner_of (entry_at h m id))
  pub counted : m.connection_count ≡ total m.connection_shards
  pub bounded : m.connection_count < word

-- An operation that changed the entry of `id` to `new` and moved its index accordingly.
module _ (h : Hashers) (m n k : ConnectionManager) (id : Text) (new : Option ConnectionEntry) where
  pub IsValid-of_moved :
      {r : Result FlareError (Unit {0})}
      → IsSound h.hash_id n.connection_shards
      → ((j : Text) → entry_at h n j ≡ (if id == j then new else entry_at h m j))
      → n.user_connection_shards ≡ m.user_connection_shards
      → n.connection_count ≡ total n.connection_shards
      → n.connection_count < word
      → IsValid h m
      → IsMoved h n id (owner_of new) k r
      → IsValid h k
  IsValid-of_moved sound found same counted bounded v moved = record {
    entries = rw moved.elsewhere.same_entries sound;
    index = moved.index;
    indexed = λ o j. ground (
      arith,
      text_beq_iff id j,
      moved.elsewhere.same_entries,
      moved.moved o j,
      found j,
      same,
      v.indexed o j,
    );
    counted = ground (arith, moved.elsewhere.same_entries, moved.elsewhere.same_count, counted);
    bounded = omega (arith, moved.elsewhere.same_count, bounded);
  }

-- The user index does not look at the rest.
pub IsIndexSound-elsewhere :
    {h : Hashers} {m : ConnectionManager} (s : List (Shard Text ConnectionEntry)) (c : ℕ)
    (w : List ℕ)
    → IsIndexSound h m
    → IsIndexSound h (record m { connection_shards = s; connection_count = c; closed_writers = w })
IsIndexSound-elsewhere s c w v = record {
  sound = v.sound;
  occupied = v.occupied;
  single = v.single;
  counted = v.counted;
}

none_at_start :
    (h : Hashers) (o : DeviceOwner)
    → find h.hash_owner
        (replicate {A = Shard DeviceOwner (List Text)} user_connection_shard_count fresh)
        o
      ≡ none
none_at_start h o = find-replicate h.hash_owner user_connection_shard_count o

none_counted : (n : ℕ) → 0 ≡ total (replicate {A = Shard DeviceOwner (List Text)} n fresh) % word
none_counted n = rw (total-replicate DeviceOwner (List Text) n) refl

-- A manager as it is created is valid, and empty.
pub with_write_queue_limits-IsValid :
    (h : Hashers) (timeout fanout capacity : ℕ)
    → IsValid h (with_write_queue_limits timeout fanout capacity)
unfolding with_write_queue_limits
with_write_queue_limits-IsValid h timeout fanout capacity = record {
  entries = replicate-IsSound h.hash_id connection_shard_count (omega arith);
  index = record {
    sound = replicate-IsSound h.hash_owner user_connection_shard_count (omega arith);
    occupied = λ o. rw (none_at_start h o);
    single = λ o. rw (none_at_start h o) tt;
    counted = none_counted user_connection_shard_count;
  };
  indexed = λ o id. rw (none_at_start h o, find-replicate h.hash_id connection_shard_count id);
  counted = sym (total-replicate Text ConnectionEntry connection_shard_count);
  bounded = omega arith;
}

pub entry_at-with_write_queue_limits :
    (h : Hashers) (timeout fanout capacity : ℕ) (id : Text)
    → entry_at h (with_write_queue_limits timeout fanout capacity) id ≡ none
unfolding with_write_queue_limits
entry_at-with_write_queue_limits h timeout fanout capacity id =
    find-replicate h.hash_id connection_shard_count id

-- ===== src/Connection/Manager/Index.antt =====
-- Proofs on the user index by itself: an insertion and a removal.
use flare_core.Base.{
  ◌+◌, ◌%◌, ◌≡◌, refl, Bool, true, false, not, ◌||◌, ◌&&◌, List, [], ◌∷◌, Option, none, some, arith,
  Text, text_eq, text_beq_iff, ◌==◌, if◌then◌else◌, contains, contains-append, Distinct,
  Distinct-append, ok, is_some, is_empty, Option-cases, Bool-cases, inl, inr,
}
use flare_core.Base.Dict.{Dict, insert, remove}
use flare_core.Device.Registry.Defs.{DeviceOwner, owner_eq, owner_beq_iff}
use flare_core.Connection.Shards.{
  Shard, shard, find, write, write_self, total, find-insert, find-remove,
}
use flare_core.Connection.Shards.Sound.{
  IsSound, insert-IsSound, remove-IsSound, total-insert, total-remove, shard-healthy,
}
use flare_core.Connection.Manager.State.{Hashers, ConnectionManager, word, fetch_add_one, fetch_sub}
use flare_core.Connection.Manager.Users.{
  ids_or_empty, push_absent, without, insert_user_connection_index, remove_user_connection_index,
  insert_user_connection, remove_user_connection,
}

contains-push_absent :
    (ids : List Text) (id j : Text)
    → contains (push_absent ids id) j ≡ (contains ids j || (id == j))
contains-push_absent ids id j = ground (arith, text_beq_iff id j, contains-append ids (id ∷ []) j)

contains-without :
    (id j : Text) (ids : List Text)
    → contains (without id ids) j ≡ (contains ids j && not (id == j))
contains-without id j [] = refl
contains-without id j (x ∷ ids) =
    ground
      (arith, text_beq_iff x id, text_beq_iff x j, text_beq_iff id j, contains-without id j ids)

push_absent-Distinct : (ids : List Text) (id : Text) → Distinct ids → Distinct (push_absent ids id)
push_absent-Distinct ids id d = elim (Bool-cases (contains ids id)) [
  | inl there ↦ rw there d
  | inr absent ↦
      rw absent
        (Distinct-append ids (id ∷ []) d (refl, tt) (λ k h. ground (arith, text_beq_iff id k)))
]

without-Distinct : (id : Text) (ids : List Text) → Distinct ids → Distinct (without id ids)
without-Distinct id [] d = tt
without-Distinct id (x ∷ ids) d =
    ground (arith, contains-without id x ids, without-Distinct id ids d.1)

-- An owner that is present with no connection.
abbrev pub vacant : Option (List Text) → Bool
vacant none = false
vacant (some ids) = is_empty ids

abbrev pub users_of : Hashers → ConnectionManager → DeviceOwner → List Text
users_of h m o = ids_or_empty (find h.hash_owner m.user_connection_shards o)

pub record IsIndexSound (h : Hashers) (m : ConnectionManager) : Type 0 where
  pub sound : IsSound h.hash_owner m.user_connection_shards
  -- An owner without connections is not kept.
  pub occupied : (o : DeviceOwner) → vacant (find h.hash_owner m.user_connection_shards o) ≡ false
  pub single : (o : DeviceOwner) → Distinct (users_of h m o)
  -- The number of owners, as a `usize` counts it.
  pub counted : m.user_count ≡ total m.user_connection_shards % word

-- Everything but the user index is left alone.
pub record IsElsewhereSame (m n : ConnectionManager) : Type 0 where
  pub same_entries : n.connection_shards ≡ m.connection_shards
  pub same_count : n.connection_count ≡ m.connection_count
  pub same_closed : n.closed_writers ≡ m.closed_writers

-- What a removal leaves of an owner's connections.
abbrev pub shrink : Text → Option (List Text) → Option (List Text)
shrink id none = none
shrink id (some ids) = if is_empty (without id ids) then none else some (without id ids)

is_empty-eq : (ids : List Text) → is_empty ids ≡ true → ids ≡ []
is_empty-eq [] e = refl
is_empty-eq (x ∷ ids) e = cc

push_absent-nonempty : (ids : List Text) (id : Text) → is_empty (push_absent ids id) ≡ false
push_absent-nonempty [] id = refl
push_absent-nonempty (x ∷ ids) id = ground arith

module _ (h : Hashers) (m : ConnectionManager) (o : DeviceOwner) (id : Text)
    (v : IsIndexSound h m) where
  abbrev shards : List (Shard DeviceOwner (List Text))
  shards = m.user_connection_shards

  pub insert_user_connection-ok : (insert_user_connection h m o id).1 ≡ ok tt
  unfolding insert_user_connection
  insert_user_connection-ok = ground (arith, shard-healthy h.hash_owner shards o v.sound)

  pub insert_user_connection-elsewhere : IsElsewhereSame m (insert_user_connection h m o id).0
  unfolding insert_user_connection
  insert_user_connection-elsewhere = ground (arith, shard-healthy h.hash_owner shards o v.sound)

  shards-insert :
      (insert_user_connection h m o id).0.user_connection_shards
      ≡ write h.hash_owner shards o
          (insert o (push_absent (users_of h m o) id) (shard h.hash_owner shards o).entries)
  unfolding insert_user_connection insert_user_connection_index find
  shards-insert = ground (arith, shard-healthy h.hash_owner shards o v.sound)

  user_count-insert :
      (insert_user_connection h m o id).0.user_count
      ≡ (if is_some (find h.hash_owner shards o) then m.user_count else fetch_add_one m.user_count)
  unfolding insert_user_connection insert_user_connection_index find
  user_count-insert = ground (arith, shard-healthy h.hash_owner shards o v.sound)

  find_user-insert :
      (p : DeviceOwner)
      → find h.hash_owner (insert_user_connection h m o id).0.user_connection_shards p
        ≡ (if o == p then some (push_absent (users_of h m o) id) else find h.hash_owner shards p)
  find_user-insert p = rw shards-insert (find-insert h.hash_owner shards o p _ v.sound.nonempty)

  -- The owner's connections now hold this one; no other owner's change.
  pub contains-users_of-insert :
      (p : DeviceOwner) (j : Text)
      → contains (users_of h (insert_user_connection h m o id).0 p) j
        ≡ (contains (users_of h m p) j || ((o == p) && (id == j)))
  contains-users_of-insert p j =
      ground
        (arith, owner_beq_iff o p, find_user-insert p, contains-push_absent (users_of h m o) id j)

  pub insert_user_connection-IsIndexSound : IsIndexSound h (insert_user_connection h m o id).0
  insert_user_connection-IsIndexSound = record {
    sound = rw shards-insert (insert-IsSound h.hash_owner shards o _ v.sound);
    occupied = λ p.
        ground (arith, find_user-insert p, v.occupied p, push_absent-nonempty (users_of h m o) id);
    single = λ p. ground (
      arith,
      find_user-insert p,
      v.single p,
      push_absent-Distinct (users_of h m o) id (v.single o),
    );
    counted = ground (
      arith,
      shards-insert,
      user_count-insert,
      v.counted,
      total-insert h.hash_owner shards o (push_absent (users_of h m o) id) v.sound,
    );
  }

  pub remove_user_connection-ok : (remove_user_connection h m o id).1 ≡ ok tt
  unfolding remove_user_connection
  remove_user_connection-ok = ground (arith, shard-healthy h.hash_owner shards o v.sound)

  pub remove_user_connection-elsewhere : IsElsewhereSame m (remove_user_connection h m o id).0
  unfolding remove_user_connection
  remove_user_connection-elsewhere = ground (arith, shard-healthy h.hash_owner shards o v.sound)

  abbrev entries_left : Option (List Text) → Dict DeviceOwner (List Text)
  entries_left none = (shard h.hash_owner shards o).entries
  entries_left (some ids) =
      if is_empty (without id ids)
      then remove o (shard h.hash_owner shards o).entries
      else insert o (without id ids) (shard h.hash_owner shards o).entries

  shards-remove :
      (remove_user_connection h m o id).0.user_connection_shards
      ≡ write h.hash_owner shards o (entries_left (find h.hash_owner shards o))
  unfolding remove_user_connection remove_user_connection_index find
  shards-remove = ground (arith, shard-healthy h.hash_owner shards o v.sound)

  user_count-remove : (remove_user_connection h m o id).0.user_count ≡ (
      if is_some (find h.hash_owner shards o)
        && not (is_some (shrink id (find h.hash_owner shards o)))
      then fetch_sub m.user_count 1
      else m.user_count)
  unfolding remove_user_connection remove_user_connection_index find
  user_count-remove = ground (arith, shard-healthy h.hash_owner shards o v.sound)

  find_user-remove :
      (p : DeviceOwner)
      → find h.hash_owner (remove_user_connection h m o id).0.user_connection_shards p
        ≡ (if o == p then shrink id (find h.hash_owner shards o) else find h.hash_owner shards p)
  find_user-remove p = elim (Option-cases (find h.hash_owner shards o)) [
    | inl e ↦ ground (arith, owner_beq_iff o p, shards-remove, write_self h.hash_owner shards o)
    | inr (ids, e) ↦ ground (
      arith,
      shards-remove,
      find-insert h.hash_owner shards o p (without id ids) v.sound.nonempty,
      find-remove h.hash_owner shards o p v.sound.nonempty,
    )
  ]

  pub contains-users_of-remove :
      (p : DeviceOwner) (j : Text)
      → contains (users_of h (remove_user_connection h m o id).0 p) j
        ≡ (contains (users_of h m p) j && not ((o == p) && (id == j)))
  contains-users_of-remove p j = elim (Option-cases (find h.hash_owner shards o)) [
    | inl e ↦ ground (arith, owner_beq_iff o p, find_user-remove p)
    | inr (ids, e) ↦ ground (
      arith,
      owner_beq_iff o p,
      find_user-remove p,
      contains-without id j ids,
      is_empty-eq (without id ids),
    )
  ]

  IsSound-remove : IsSound h.hash_owner (remove_user_connection h m o id).0.user_connection_shards
  IsSound-remove = elim (Option-cases (find h.hash_owner shards o)) [
    | inl e ↦ rw (shards-remove, e, entries_left, write_self h.hash_owner shards o) v.sound
    | inr (ids, e) ↦ elim (Bool-cases (is_empty (without id ids))) [
      | inl gone ↦
          rw (shards-remove, e, entries_left, gone) (remove-IsSound h.hash_owner shards o v.sound)
      | inr rest ↦
          rw (shards-remove, e, entries_left, rest) (insert-IsSound h.hash_owner shards o _ v.sound)
    ]
  ]

  counted-remove :
      (remove_user_connection h m o id).0.user_count
      ≡ total (remove_user_connection h m o id).0.user_connection_shards % word
  counted-remove = elim (Option-cases (find h.hash_owner shards o)) [
    | inl e ↦
        ground
          (arith, shards-remove, user_count-remove, write_self h.hash_owner shards o, v.counted)
    | inr (ids, e) ↦ ground (
      arith,
      shards-remove,
      user_count-remove,
      v.counted,
      total-remove h.hash_owner shards o v.sound,
      total-insert h.hash_owner shards o (without id ids) v.sound,
    )
  ]

  -- An owner is gone when its last connection is.
  pub total_users-remove :
      total (remove_user_connection h m o id).0.user_connection_shards
        + (if (remove_user_connection_index (shard h.hash_owner shards o).entries o id).1
            then 1
            else 0)
      ≡ total shards
  unfolding remove_user_connection remove_user_connection_index find
  total_users-remove = elim (Option-cases (find h.hash_owner shards o)) [
    | inl e ↦ ground (arith, shards-remove, write_self h.hash_owner shards o)
    | inr (ids, e) ↦ ground (
      arith,
      shards-remove,
      total-remove h.hash_owner shards o v.sound,
      total-insert h.hash_owner shards o (without id ids) v.sound,
    )
  ]

  pub shards-remove_index :
      (remove_user_connection h m o id).0.user_connection_shards
      ≡ write h.hash_owner shards o
          (remove_user_connection_index (shard h.hash_owner shards o).entries o id).0
  unfolding remove_user_connection
  shards-remove_index = ground (arith, shard-healthy h.hash_owner shards o v.sound)

  single-remove : (p : DeviceOwner) → Distinct (users_of h (remove_user_connection h m o id).0 p)
  single-remove p = elim (Option-cases (find h.hash_owner shards o)) [
    | inl e ↦ ground (arith, find_user-remove p, v.single p)
    | inr (ids, e) ↦
        ground (arith, find_user-remove p, v.single p, v.single o, without-Distinct id ids)
  ]

  pub remove_user_connection-IsIndexSound : IsIndexSound h (remove_user_connection h m o id).0
  remove_user_connection-IsIndexSound = record {
    sound = IsSound-remove;
    occupied = λ p. ground (arith, find_user-remove p, v.occupied p);
    single = single-remove;
    counted = counted-remove;
  }

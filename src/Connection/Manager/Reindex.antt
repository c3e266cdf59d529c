-- ===== src/Connection/Manager/Reindex.antt =====
-- Proofs on `reindex_user_connection` of manager/lifecycle.rs.
use flare_core.Base.{
  ◌≡◌, refl, subst, ◌∙◌, false, Option, none, some, arith, Text, text_eq, text_beq_iff, ◌==◌,
  if◌then◌else◌, contains, Result, ok, Bool-cases, inl, inr,
}
use flare_core.Device.Registry.Defs.{DeviceOwner, owner_eq, owner_beq_iff}
use flare_core.Device.Registry.Consistency.{is_owner}
use flare_core.Connection.Manager.State.{Hashers, FlareError, ConnectionManager}
use flare_core.Connection.Manager.Users.{
  insert_user_connection, remove_user_connection, leave_before, enter_after,
  reindex_user_connection,
}
use flare_core.Connection.Manager.Index.{
  users_of, IsIndexSound, IsElsewhereSame, insert_user_connection-ok,
  insert_user_connection-elsewhere, contains-users_of-insert, insert_user_connection-IsIndexSound,
  remove_user_connection-ok, remove_user_connection-elsewhere, contains-users_of-remove,
  remove_user_connection-IsIndexSound,
}

-- The outcome of a change of the index of `id`, from a manager whose index is sound.
pub record IsMoved (h : Hashers) (m : ConnectionManager) (id : Text) (after : Option DeviceOwner)
    (n : ConnectionManager) (r : Result FlareError (Unit {0})) : Type 0 where
  pub succeeded : r ≡ ok tt
  pub index : IsIndexSound h n
  pub elsewhere : IsElsewhereSame m n
  pub moved :
      (p : DeviceOwner) (j : Text)
      → contains (users_of h n p) j
        ≡ (if id == j then is_owner p after else contains (users_of h m p) j)

module _ (h : Hashers) (m : ConnectionManager) (id : Text) (v : IsIndexSound h m) where
  -- The index holds `id` for the owner before, and for no other.
  abbrev IsAt : Option DeviceOwner → Type 0
  IsAt before = (p : DeviceOwner) → contains (users_of h m p) id ≡ is_owner p before

  inserted :
      (o : DeviceOwner)
      → ((p : DeviceOwner) → (o == p) ≡ false → contains (users_of h m p) id ≡ false)
      → let (n, r) = insert_user_connection h m o id in IsMoved h m id (some o) n r
  inserted o at = record {
    succeeded = insert_user_connection-ok h m o id v;
    index = insert_user_connection-IsIndexSound h m o id v;
    elsewhere = insert_user_connection-elsewhere h m o id v;
    moved = λ p j. ground (arith, text_beq_iff id j, at p, contains-users_of-insert h m o id v p j);
  }

  pub removed :
      (o : DeviceOwner)
      → IsAt (some o)
      → let (n, r) = remove_user_connection h m o id in IsMoved h m id none n r
  removed o at = record {
    succeeded = remove_user_connection-ok h m o id v;
    index = remove_user_connection-IsIndexSound h m o id v;
    elsewhere = remove_user_connection-elsewhere h m o id v;
    moved = λ p j. ground (arith, text_beq_iff id j, at p, contains-users_of-remove h m o id v p j);
  }

  pub unmoved : (before : Option DeviceOwner) → IsAt before → IsMoved h m id before m (ok tt)
  unmoved before at = record {
    succeeded = refl;
    index = v;
    elsewhere = record { same_entries = refl; same_count = refl; same_closed = refl };
    moved = λ p j. ground (arith, text_beq_iff id j, at p);
  }

-- A move out of one owner and into another is one move.
IsMoved-trans :
    {h : Hashers} {m n k : ConnectionManager} {id : Text} {b a : Option DeviceOwner}
    {r q : Result FlareError (Unit {0})}
    → IsMoved h m id b n r
    → IsMoved h n id a k q
    → IsMoved h m id a k q
IsMoved-trans {id = id} x y = record {
  succeeded = y.succeeded;
  index = y.index;
  elsewhere = record {
    same_entries = y.elsewhere.same_entries ∙ x.elsewhere.same_entries;
    same_count = y.elsewhere.same_count ∙ x.elsewhere.same_count;
    same_closed = y.elsewhere.same_closed ∙ x.elsewhere.same_closed;
  };
  moved = λ p j. ground (arith, x.moved p j, y.moved p j);
}

module _ (h : Hashers) (m : ConnectionManager) (id : Text) (v : IsIndexSound h m) where
  reindex-other :
      (b a : DeviceOwner)
      → (a == b) ≡ false
      → (remove_user_connection h m b id).1 ≡ ok tt
      → reindex_user_connection h m id (some b) (some a)
        ≡ insert_user_connection h (remove_user_connection h m b id).0 a id
  unfolding reindex_user_connection leave_before enter_after
  reindex-other b a other gone = ground arith

  gone_and_entered :
      (b a : DeviceOwner)
      → (a == b) ≡ false
      → IsAt h m id v (some b)
      → let (n, r) = reindex_user_connection h m id (some b) (some a) in IsMoved h m id (some a) n r
  gone_and_entered b a other at =
      let gone = removed h m id v b at in
      let n = (remove_user_connection h m b id).0 in
      let entered =
        inserted h n id gone.index a (λ p e. ground (arith, gone.moved p id, text_beq_iff id id)) in
      rw (reindex-other b a other gone.succeeded) (IsMoved-trans gone entered)

  pub reindexed :
      (before after : Option DeviceOwner)
      → ((p : DeviceOwner) → contains (users_of h m p) id ≡ is_owner p before)
      → let (n, r) = reindex_user_connection h m id before after in IsMoved h m id after n r
  unfolding reindex_user_connection leave_before enter_after
  reindexed none none at = unmoved h m id v none at
  reindexed none (some a) at = inserted h m id v a (λ p n. ground (arith, at p))
  reindexed (some b) none at =
      let gone = removed h m id v b at in
      rw (gone.succeeded, enter_after)
        (subst (IsMoved h m id none (remove_user_connection h m b id).0) gone.succeeded gone)
  reindexed (some b) (some a) at = elim (Bool-cases (a == b)) [
    | inl same ↦ rw same (
        inserted h m id v a
          (λ p n. ground (arith, at p, owner_beq_iff a b, owner_beq_iff a p, owner_beq_iff b p)))
    | inr other ↦ gone_and_entered b a other at
  ]

-- ===== src/Connection/Shards/Sound.antt =====
-- The invariant of the shards, for the proofs on the maps of manager/mod.rs.
use flare_core.Base.{
  ℕ, zero, suc, ◌+◌, ◌<◌, ◌≡◌, refl, sym, ap, subst, ◌∙◌, true, false, List, [], ◌∷◌, none, arith,
  Equality, nat_eq, nat_beq_iff, if◌then◌else◌, contains, Distinct, contains-append, length,
  length-append, is_some, replicate, length-replicate, get_or-replicate,
}
use flare_core.Base.Dict.{
  Dict, keys, get, contains_key, insert, remove, get-insert, get-remove, contains-keys,
  insert-Distinct, remove-Distinct, length-insert, length-remove,
}
use flare_core.Connection.Shards.{
  Shard, fresh, nth, total, all_keys, index, shard, find, write, length-write, nth-write,
  poisoned-write, total-write,
}

module _ {ℓ κ} {K : Type ℓ} {V : Type κ} ⦃e : Equality K⦄ where
  length-keys : (m : Dict K V) → length (keys m) ≡ length m
  length-keys [] = refl
  length-keys ((k, v) ∷ m) = ap suc (length-keys m)

  -- Shards taken one by one: no shard's lock is poisoned, and `k` is in the shard `t` at most.
  contains-all_keys-absent :
      (s : List (Shard K V)) (k : K)
      → ((i : ℕ) → contains_key k (nth s i).entries ≡ false)
      → contains (all_keys s) k ≡ false
  unfolding all_keys
  contains-all_keys-absent [] k h = refl
  contains-all_keys-absent (x ∷ s) k h = ground (
    arith,
    contains-append (keys x.entries) (all_keys s) k,
    contains-keys k x.entries,
    h zero,
    contains-all_keys-absent s k (λ i. h (suc i)),
  )

  contains-all_keys-at :
      (s : List (Shard K V)) (t : ℕ) (k : K)
      → ((i : ℕ) → (nth s i).poisoned ≡ false)
      → ((i : ℕ) → contains_key k (nth s i).entries ≡ true → t ≡ i)
      → contains (all_keys s) k ≡ contains_key k (nth s t).entries
  unfolding all_keys get
  contains-all_keys-at [] t k p h = refl
  contains-all_keys-at (x ∷ s) zero k p h = ground (
    arith,
    contains-append (keys x.entries) (all_keys s) k,
    contains-keys k x.entries,
    p zero,
    contains-all_keys-absent s k (λ i. ground (arith, h (suc i))),
  )
  contains-all_keys-at (x ∷ s) (suc t) k p h = ground (
    arith,
    contains-append (keys x.entries) (all_keys s) k,
    contains-keys k x.entries,
    p zero,
    h zero,
    contains-all_keys-at s t k (λ i. p (suc i)) (λ i q. ground (arith, h (suc i))),
  )

  pub length-all_keys :
      (s : List (Shard K V))
      → ((i : ℕ) → (nth s i).poisoned ≡ false)
      → length (all_keys s) ≡ total s
  unfolding all_keys total
  length-all_keys [] p = refl
  length-all_keys (x ∷ s) p = ground (
    arith,
    length-append (keys x.entries) (all_keys s),
    length-keys x.entries,
    p zero,
    length-all_keys s (λ i. p (suc i)),
  )

-- The invariant of the shards: no lock is poisoned, every key is in the shard of its hash, once.
pub record IsSound {ℓ κ} {K : Type ℓ} {V : Type κ} ⦃e : Equality K⦄ (hash : K → ℕ)
    (s : List (Shard K V)) : Type ℓ where
  pub nonempty : 0 < length s
  pub healthy : (i : ℕ) → (nth s i).poisoned ≡ false
  pub distinct : (i : ℕ) → Distinct (keys (nth s i).entries)
  pub placed : (i : ℕ) (k : K) → contains_key k (nth s i).entries ≡ true → index hash s k ≡ i

module _ {ℓ κ} {K : Type ℓ} {V : Type κ} ⦃e : Equality K⦄ (hash : K → ℕ) where
  index-write :
      (s : List (Shard K V)) (k j : K) (d : Dict K V)
      → index hash (write hash s k d) j ≡ index hash s j
  unfolding index
  index-write s k j d = rw (length-write hash s k d)

  write-IsSound :
      (s : List (Shard K V)) (k : K) (d : Dict K V)
      → IsSound hash s
      → Distinct (keys d)
      → ((j : K) → contains_key j d ≡ true → index hash s j ≡ index hash s k)
      → IsSound hash (write hash s k d)
  write-IsSound s k d v u p = record {
    nonempty = omega (arith, length-write hash s k d, v.nonempty);
    healthy = λ i. poisoned-write hash s k d i v.nonempty ∙ v.healthy i;
    distinct = λ i. ground (arith, nth-write hash s k d i v.nonempty, v.distinct i);
    placed = λ i j h. ground (
      arith,
      index-write s k j d,
      nth-write hash s k d i v.nonempty,
      nat_beq_iff (index hash s k) i,
      p j,
      v.placed i j,
    );
  }

  shard-Distinct :
      (s : List (Shard K V)) (k : K) → IsSound hash s → Distinct (keys (shard hash s k).entries)
  unfolding shard
  shard-Distinct s k v = v.distinct (index hash s k)

  shard-placed :
      (s : List (Shard K V)) (k j : K)
      → IsSound hash s
      → contains_key j (shard hash s k).entries ≡ true
      → index hash s j ≡ index hash s k
  unfolding shard
  shard-placed s k j v h = v.placed (index hash s k) j h

  pub insert-IsSound :
      (s : List (Shard K V)) (k : K) (v : V)
      → IsSound hash s
      → IsSound hash (write hash s k (insert k v (shard hash s k).entries))
  insert-IsSound s k v i =
      write-IsSound s k _ i (insert-Distinct k v _ (shard-Distinct s k i)) (λ j h.
        ground
          (arith, e.eq_iff k j, get-insert k j v (shard hash s k).entries, shard-placed s k j i))

  pub remove-IsSound :
      (s : List (Shard K V)) (k : K)
      → IsSound hash s
      → IsSound hash (write hash s k (remove k (shard hash s k).entries))
  remove-IsSound s k i =
      write-IsSound s k _ i (remove-Distinct k _ (shard-Distinct s k i))
        (λ j h. ground (arith, get-remove k j (shard hash s k).entries, shard-placed s k j i))

  -- A key is listed exactly when it is found.
  pub contains-all_keys :
      (s : List (Shard K V)) (k : K)
      → IsSound hash s
      → contains (all_keys s) k ≡ is_some (find hash s k)
  unfolding find shard
  contains-all_keys s k v = contains-all_keys-at s (index hash s k) k v.healthy (λ i. v.placed i k)

  pub total-insert :
      (s : List (Shard K V)) (k : K) (v : V)
      → IsSound hash s
      → total (write hash s k (insert k v (shard hash s k).entries))
        ≡ (if is_some (find hash s k) then total s else suc (total s))
  unfolding find
  total-insert s k v i = ground (
    arith,
    total-write hash s k (insert k v (shard hash s k).entries) i.nonempty,
    length-insert k v (shard hash s k).entries,
  )

  pub total-remove :
      (s : List (Shard K V)) (k : K)
      → IsSound hash s
      → total (write hash s k (remove k (shard hash s k).entries))
          + (if is_some (find hash s k) then 1 else 0)
        ≡ total s
  unfolding find
  total-remove s k i = ground (
    arith,
    total-write hash s k (remove k (shard hash s k).entries) i.nonempty,
    length-remove k (shard hash s k).entries (shard-Distinct s k i),
  )

  pub shard-healthy :
      (s : List (Shard K V)) (k : K) → IsSound hash s → (shard hash s k).poisoned ≡ false
  unfolding shard
  shard-healthy s k v = v.healthy (index hash s k)

  nth-replicate : (n i : ℕ) → nth (replicate {A = Shard K V} n fresh) i ≡ fresh
  nth-replicate n i = get_or-replicate n i fresh

  -- The shards as they are created.
  pub replicate-IsSound : (n : ℕ) → 0 < n → IsSound hash (replicate {A = Shard K V} n fresh)
  unfolding get
  replicate-IsSound n h = record {
    nonempty = omega (arith, length-replicate {ℓ ⊔ κ} {A = Shard K V} n fresh);
    healthy = λ i. ap (λ x. x.poisoned) (nth-replicate n i);
    distinct = λ i. subst (λ x. Distinct (keys x.entries)) (sym (nth-replicate n i)) tt;
    placed = λ i k q.
        let none_there : contains_key k (nth (replicate {A = Shard K V} n fresh) i).entries
            ≡ false =
          ap (λ x. contains_key k x.entries) (nth-replicate n i) in
        cc;
  }

  pub find-replicate : (n : ℕ) (k : K) → find hash (replicate {A = Shard K V} n fresh) k ≡ none
  unfolding find shard get
  find-replicate n k =
      ap (λ x. get k x.entries) (nth-replicate n (index hash (replicate {A = Shard K V} n fresh) k))

pub total-replicate {ℓ κ} :
    (K : Type ℓ) (V : Type κ) (n : ℕ) → total (replicate {A = Shard K V} n fresh) ≡ 0
unfolding total
total-replicate K V zero = refl
total-replicate K V (suc n) = omega (arith, total-replicate K V n)

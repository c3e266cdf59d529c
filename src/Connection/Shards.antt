-- ===== src/Connection/Shards.antt =====
-- `Vec<RwLock<HashMap<K, V>>>`: a map cut into shards by the hash of the key. The hash is the standard
-- library's `DefaultHasher`, whose values are unspecified: an argument.
pub mod Sound
pub mod Batches
use flare_core.Base.{
  ℕ, zero, suc, ◌+◌, ◌%◌, ◌<◌, ◌≡◌, ◌≢◌, refl, sym, ap, ◌∙◌, Bool, true, false, not, ◌||◌, ◌&&◌,
  List, [], ◌∷◌, ◌++◌, Option, none, some, arith, Equality, ◌==◌, nat_eq, nat_beq, nat_beq_iff,
  if◌then◌else◌, contains, Distinct, contains-append, length, length-append, get_or, set,
  length-set, get_or-set_self, get_or-set_ne, set-set, set-get_or, Bool-cases, inl, inr, is_some,
}
use flare_core.Base.Dict.{
  Dict, keys, get, contains_key, insert, remove, get-insert, get-remove, contains-keys,
  remove-insert_absent,
}
use native.Mathlib.Nat.{mod-lt}

-- A lock that a panic poisoned refuses to be taken.
pub record Shard {ℓ κ} (K : Type ℓ) (V : Type κ) : Type (ℓ ⊔ κ) where
  pub poisoned : Bool
  pub entries : Dict K V

abbrev pub fresh {ℓ κ} : {K : Type ℓ} {V : Type κ} → Shard K V
fresh = record { poisoned = false; entries = [] }

abbrev pub nth {ℓ κ} : {K : Type ℓ} {V : Type κ} → List (Shard K V) → ℕ → Shard K V
nth s i = get_or s i fresh

-- The number of entries of all shards.
unfoldable pub total {ℓ κ} : {K : Type ℓ} {V : Type κ} → List (Shard K V) → ℕ
total [] = 0
total (x ∷ s) = length x.entries + total s

-- Every key of the shards whose lock can be taken.
unfoldable pub all_keys {ℓ κ} : {K : Type ℓ} {V : Type κ} → List (Shard K V) → List K
all_keys [] = []
all_keys (x ∷ s) = (if x.poisoned then [] else keys x.entries) ++ all_keys s

total-set {ℓ κ} :
    {K : Type ℓ} {V : Type κ} (s : List (Shard K V)) (i : ℕ) (x : Shard K V)
    → i < length s
    → total (set s i x) + length (nth s i).entries ≡ total s + length x.entries
unfolding total
total-set [] i x h = elim h [ ]
total-set (y ∷ s) zero x h = omega arith
total-set (y ∷ s) (suc i) x h = omega (arith, total-set s i x (omega arith))

nat_refl : (n : ℕ) → (n == n) ≡ true
nat_refl n = ground (arith, nat_beq_iff n n)

module _ {ℓ κ} {K : Type ℓ} {V : Type κ} ⦃e : Equality K⦄ (hash : K → ℕ) where
  unfoldable pub index : List (Shard K V) → K → ℕ
  index s k = hash k % length s

  unfoldable pub shard : List (Shard K V) → K → Shard K V
  unfolding index
  shard s k = nth s (index s k)

  unfoldable pub find : List (Shard K V) → K → Option V
  unfolding shard get
  find s k = get k (shard s k).entries

  -- The shard of a key with new contents.
  unfoldable pub write : List (Shard K V) → K → Dict K V → List (Shard K V)
  unfolding shard
  write s k d = set s (index s k) (record (shard s k) { entries = d })

  pub length-write : (s : List (Shard K V)) (k : K) (d : Dict K V) → length (write s k d) ≡ length s
  unfolding write
  length-write s k d = length-set s (index s k) _

  pub write_self : (s : List (Shard K V)) (k : K) → write s k (shard s k).entries ≡ s
  unfolding write shard
  write_self s k = set-get_or s (index s k) fresh

  index-write : (s : List (Shard K V)) (k j : K) (d : Dict K V) → index (write s k d) j ≡ index s j
  unfolding index
  index-write s k j d = rw (length-write s k d)

  -- The shard of a key depends on the number of shards only.
  pub index-same : (s t : List (Shard K V)) (k : K) → length s ≡ length t → index s k ≡ index t k
  unfolding index
  index-same s t k e = rw e refl

  pub index-lt : (s : List (Shard K V)) (k : K) → 0 < length s → index s k < length s
  unfolding index
  index-lt s k h = omega arith

  pub nth-write :
      (s : List (Shard K V)) (k : K) (d : Dict K V) (i : ℕ)
      → 0 < length s
      → nth (write s k d) i
        ≡ (if index s k == i then record (shard s k) { entries = d } else nth s i)
  unfolding write
  nth-write s k d i h = elim (Bool-cases (index s k == i)) [
    | inl same ↦
        rw (same, ← (nat_beq_iff (index s k) i).0 same)
          (get_or-set_self s (index s k) _ fresh (index-lt s k h))
    | inr other ↦ rw other (get_or-set_ne s (index s k) i _ fresh (λ q. ground arith))
  ]

  pub shard-write :
      (s : List (Shard K V)) (k j : K) (d : Dict K V)
      → 0 < length s
      → shard (write s k d) j
        ≡ (if index s k == index s j then record (shard s k) { entries = d } else shard s j)
  unfolding shard
  shard-write s k j d h = rw (index-write s k j d) (nth-write s k d (index s j) h)

  pub poisoned-write :
      (s : List (Shard K V)) (k : K) (d : Dict K V) (i : ℕ)
      → 0 < length s
      → (nth (write s k d) i).poisoned ≡ (nth s i).poisoned
  unfolding shard
  poisoned-write s k d i h = ground (arith, nth-write s k d i h)

  write-write :
      (s : List (Shard K V)) (k : K) (d c : Dict K V)
      → 0 < length s
      → write (write s k d) k c ≡ write s k c
  unfolding write shard
  write-write s k d c h =
      rw (index-write s k k d, poisoned-write s k d (index s k) h) (set-set s (index s k) _ _)

  same_shard : (s : List (Shard K V)) (k j : K) → index s k ≡ index s j → shard s k ≡ shard s j
  unfolding shard
  same_shard s k j q = ap (nth s) q

  pub find-insert :
      (s : List (Shard K V)) (k j : K) (v : V)
      → 0 < length s
      → find (write s k (insert k v (shard s k).entries)) j ≡ (if k == j then some v else find s j)
  unfolding find
  find-insert s k j v h = ground (
    arith,
    e.eq_iff k j,
    nat_beq_iff (index s k) (index s j),
    shard-write s k j (insert k v (shard s k).entries) h,
    get-insert k j v (shard s k).entries,
    get-insert k j v (shard s j).entries,
    same_shard s k j,
  )

  pub find-remove :
      (s : List (Shard K V)) (k j : K)
      → 0 < length s
      → find (write s k (remove k (shard s k).entries)) j ≡ (if k == j then none else find s j)
  unfolding find
  find-remove s k j h = ground (
    arith,
    e.eq_iff k j,
    nat_beq_iff (index s k) (index s j),
    shard-write s k j (remove k (shard s k).entries) h,
    get-remove k j (shard s k).entries,
    get-remove k j (shard s j).entries,
    same_shard s k j,
  )

  pub total-write :
      (s : List (Shard K V)) (k : K) (d : Dict K V)
      → 0 < length s
      → total (write s k d) + length (shard s k).entries ≡ total s + length d
  unfolding write
  total-write s k d h = total-set s (index s k) _ (index-lt s k h)

  -- An insertion taken back.
  pub remove-insert :
      (s : List (Shard K V)) (k : K) (v : V)
      → 0 < length s
      → contains_key k (shard s k).entries ≡ false
      → let t = write s k (insert k v (shard s k).entries) in
        write t k (remove k (shard t k).entries) ≡ s
  remove-insert s k v h absent =
      let d = insert k v (shard s k).entries in
      rw
        (
          shard-write s k k d h,
          nat_refl (index s k),
          remove-insert_absent k v (shard s k).entries absent,
        )
        (write-write s k d (shard s k).entries h ∙ write_self s k)

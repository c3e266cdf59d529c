-- ===== src/Connection/Shards/Batches.antt =====
-- `ids_by_shard`: how the batch methods of manager/lifecycle.rs and manager/ops.rs sort what they are
-- given by the shard of its key and go through the shards in order.
use flare_core.Base.{
  ℕ, zero, suc, ◌+◌, ◌<◌, ◌≡◌, refl, sym, subst, ap, ◌∙◌, Bool, false, ◌||◌, List, [], ◌∷◌, ◌++◌,
  arith, Equality, ◌==◌, if◌then◌else◌, contains, contains-append, length, get_or, set, length-set,
  is_empty, append_assoc, replicate, length-append, length-replicate,
}
use mathlib.Core.List.{append-nil, Perm, perm_append_singleton, perm_middle}
use mathlib.Core.List.Perm

module _ {ℓ} {K : Type ℓ} where
  -- `ids_by_shard[shard_index].push(id)`
  abbrev pub push_at : List (List K) → ℕ → K → List (List K)
  push_at buckets i k = set buckets i (get_or buckets i [] ++ k ∷ [])

  unfoldable pub bucketed : (K → ℕ) → List (List K) → List K → List (List K)
  bucketed index buckets [] = buckets
  bucketed index buckets (k ∷ ks) = bucketed index (push_at buckets (index k) k) ks

  abbrev pub concat : List (List K) → List K
  concat [] = []
  concat (ks ∷ buckets) = ks ++ concat buckets

module _ {ℓ κ} {K : Type ℓ} {S : Type κ} (step : ℕ → S → K → S) (locked : ℕ → S → Bool) where
  abbrev pub run_bucket : ℕ → S → List K → S
  run_bucket i s [] = s
  run_bucket i s (k ∷ ks) = run_bucket i (step i s k) ks

  -- An empty bucket does not take its shard's lock, and a poisoned shard is passed over.
  unfoldable pub run_buckets : ℕ → S → List (List K) → S
  run_buckets i s [] = s
  run_buckets i s (ks ∷ buckets) =
      run_buckets (suc i) (if is_empty ks || locked i s then s else run_bucket i s ks) buckets

  unfoldable pub run_batch : ℕ → (K → ℕ) → S → List K → S
  unfolding bucketed run_buckets
  run_batch n index s ks = run_buckets zero s (bucketed index (replicate n []) ks)

module _ {ℓ} {K : Type ℓ} (index : K → ℕ) where
  abbrev AreAt : ℕ → List K → Type 0
  AreAt i [] = Unit {0}
  AreAt i (k ∷ ks) = (index k ≡ i) × AreAt i ks

  -- Each bucket holds only keys of its own number.
  abbrev ArePlaced : ℕ → List (List K) → Type 0
  ArePlaced i [] = Unit {0}
  ArePlaced i (ks ∷ buckets) = AreAt i ks × ArePlaced (suc i) buckets

  AreAt-append : (i : ℕ) (ks : List K) (k : K) → AreAt i ks → index k ≡ i → AreAt i (ks ++ k ∷ [])
  AreAt-append i [] k p q = (q, tt)
  AreAt-append i (x ∷ ks) k p q = (p.0, AreAt-append i ks k p.1 q)

  push_at-ArePlaced :
      (i j : ℕ) (buckets : List (List K)) (k : K)
      → ArePlaced i buckets
      → index k ≡ i + j
      → ArePlaced i (push_at buckets j k)
  push_at-ArePlaced i j [] k p q = tt
  push_at-ArePlaced i zero (ks ∷ buckets) k p q = (AreAt-append i ks k p.0 (omega (arith, q)), p.1)
  push_at-ArePlaced i (suc j) (ks ∷ buckets) k p q =
      (p.0, push_at-ArePlaced (suc i) j buckets k p.1 (omega (arith, q)))

  bucketed-ArePlaced :
      (buckets : List (List K)) (ks : List K)
      → ArePlaced zero buckets
      → ArePlaced zero (bucketed index buckets ks)
  unfolding bucketed
  bucketed-ArePlaced buckets [] p = p
  bucketed-ArePlaced buckets (k ∷ ks) p =
      bucketed-ArePlaced (push_at buckets (index k) k) ks
        (push_at-ArePlaced zero (index k) buckets k p (omega arith))

  replicate-ArePlaced : (i n : ℕ) → ArePlaced i (replicate n [])
  replicate-ArePlaced i zero = tt
  replicate-ArePlaced i (suc n) = (tt, replicate-ArePlaced (suc i) n)

module _ {ℓ} {K : Type ℓ} where
  concat-replicate : (n : ℕ) → concat (replicate {A = List K} n []) ≡ []
  concat-replicate zero = refl
  concat-replicate (suc n) = concat-replicate n

module _ {ℓ} {K : Type ℓ} ⦃e : Equality K⦄ where
  contains-push_at :
      (buckets : List (List K)) (i : ℕ) (k j : K)
      → i < length buckets
      → contains (concat (push_at buckets i k)) j ≡ (contains (concat buckets) j || (k == j))
  contains-push_at [] i k j h = elim h [ ]
  contains-push_at (ks ∷ buckets) zero k j h = ground (
    arith,
    contains-append (ks ++ k ∷ []) (concat buckets) j,
    contains-append ks (k ∷ []) j,
    contains-append ks (concat buckets) j,
  )
  contains-push_at (ks ∷ buckets) (suc i) k j h = ground (
    arith,
    contains-append ks (concat (push_at buckets i k)) j,
    contains-append ks (concat buckets) j,
    contains-push_at buckets i k j,
  )

  contains-bucketed :
      (index : K → ℕ) (buckets : List (List K)) (ks : List K) (j : K)
      → ((k : K) → index k < length buckets)
      → contains (concat (bucketed index buckets ks)) j
        ≡ (contains (concat buckets) j || contains ks j)
  unfolding bucketed
  contains-bucketed index buckets [] j h = ground arith
  contains-bucketed index buckets (k ∷ ks) j h =
      let pushed = push_at buckets (index k) k in
      let same = length-set buckets (index k) (get_or buckets (index k) [] ++ k ∷ []) in
      let rest = contains-bucketed index pushed ks j (λ x. omega (arith, same, h x)) in
      let here = contains-push_at buckets (index k) k j (h k) in ground (arith, rest, here)

-- An invariant of a batch: `Inv s done` of a state after the keys `done`.
module _ {ℓ κ μ} {K : Type ℓ} {S : Type κ} (step : ℕ → S → K → S) (locked : ℕ → S → Bool)
    (index : K → ℕ) (Inv : S → List K → Type μ) where
  module _ (unlocked : (i : ℕ) (s : S) (done : List K) → Inv s done → locked i s ≡ false)
      (stays : (s : S) (done : List K) (k : K)
        → Inv s done
        → Inv (step (index k) s k) (done ++ k ∷ [])) where
    run_bucket-Inv :
        (i : ℕ) (ks done : List K) (s : S)
        → AreAt index i ks
        → Inv s done
        → Inv (run_bucket step locked i s ks) (done ++ ks)
    run_bucket-Inv i [] done s p v = subst (Inv s) (sym (append-nil done)) v
    run_bucket-Inv i (k ∷ ks) done s p v =
        let next = subst (λ j. Inv (step j s k) (done ++ k ∷ [])) p.0 (stays s done k v) in
        subst (Inv _) (append_assoc done (k ∷ []) ks) (run_bucket-Inv i ks _ _ p.1 next)

    run_buckets-Inv :
        (i : ℕ) (buckets : List (List K)) (done : List K) (s : S)
        → ArePlaced index i buckets
        → Inv s done
        → Inv (run_buckets step locked i s buckets) (done ++ concat buckets)
    unfolding run_buckets
    run_buckets-Inv i [] done s p v = subst (Inv s) (sym (append-nil done)) v
    run_buckets-Inv i ([] ∷ buckets) done s p v = run_buckets-Inv (suc i) buckets done s p.1 v
    run_buckets-Inv i ((k ∷ ks) ∷ buckets) done s p v = rw (unlocked i s done v) (
        subst (Inv _) (append_assoc done (k ∷ ks) (concat buckets))
          (run_buckets-Inv (suc i) buckets _ _ p.1 (run_bucket-Inv i (k ∷ ks) done s p.0 v)))

    pub run_batch-Inv :
        (n : ℕ) (s : S) (ks : List K)
        → Inv s []
        → Inv (run_batch step locked n index s ks) (concat (bucketed index (replicate n []) ks))
    unfolding run_batch
    run_batch-Inv n s ks v =
        run_buckets-Inv zero (bucketed index (replicate n []) ks) [] s
          (bucketed-ArePlaced index (replicate n []) ks (replicate-ArePlaced index zero n)) v

module _ {ℓ} {K : Type ℓ} ⦃e : Equality K⦄ where
  -- The keys that a batch goes through are those that it was given.
  pub contains-batch :
      (n : ℕ) (index : K → ℕ) (ks : List K) (j : K)
      → ((k : K) → index k < n)
      → contains (concat (bucketed index (replicate n []) ks)) j ≡ contains ks j
  contains-batch n index ks j h = ground (
    arith,
    contains-bucketed index (replicate n []) ks j
        (λ k. omega (arith, h k, length-replicate {A = List K} n [])),
    concat-replicate {K = K} n,
  )

module _ {ℓ} {K : Type ℓ} where
  length-push_at :
      (buckets : List (List K)) (i : ℕ) (k : K)
      → i < length buckets
      → length (concat (push_at buckets i k)) ≡ suc (length (concat buckets))
  length-push_at [] i k h = elim h [ ]
  length-push_at (ks ∷ buckets) zero k h = ground (
    arith,
    length-append (ks ++ k ∷ []) (concat buckets),
    length-append ks (k ∷ []),
    length-append ks (concat buckets),
  )
  length-push_at (ks ∷ buckets) (suc i) k h = ground (
    arith,
    length-append ks (concat (push_at buckets i k)),
    length-append ks (concat buckets),
    length-push_at buckets i k,
  )

  length-bucketed :
      (index : K → ℕ) (buckets : List (List K)) (ks : List K)
      → ((k : K) → index k < length buckets)
      → length (concat (bucketed index buckets ks)) ≡ length (concat buckets) + length ks
  unfolding bucketed
  length-bucketed index buckets [] h = omega arith
  length-bucketed index buckets (k ∷ ks) h =
      let pushed = push_at buckets (index k) k in
      let same = length-set buckets (index k) (get_or buckets (index k) [] ++ k ∷ []) in
      let rest = length-bucketed index pushed ks (λ x. omega (arith, same, h x)) in
      omega (arith, rest, length-push_at buckets (index k) k (h k))

  pub length-batch :
      (n : ℕ) (index : K → ℕ) (ks : List K)
      → ((k : K) → index k < n)
      → length (concat (bucketed index (replicate n []) ks)) ≡ length ks
  length-batch n index ks h = ground (
    arith,
    length-bucketed index (replicate n []) ks
        (λ k. omega (arith, h k, length-replicate {A = List K} n [])),
    concat-replicate {K = K} n,
  )

  concat-push_at-perm :
      (buckets : List (List K)) (i : ℕ) (k : K)
      → i < length buckets
      → Perm (concat (push_at buckets i k)) (k ∷ concat buckets)
  concat-push_at-perm [] i k h = elim h [ ]
  concat-push_at-perm (ks ∷ buckets) zero k h =
      Perm.append_right (concat buckets) (perm_append_singleton k ks)
  concat-push_at-perm (ks ∷ buckets) (suc i) k h =
      Perm.trans (Perm.append_left ks (concat-push_at-perm buckets i k (omega arith)))
        (perm_middle ks (concat buckets))

  concat-bucketed-perm :
      (index : K → ℕ) (buckets : List (List K)) (ks : List K)
      → ((k : K) → index k < length buckets)
      → Perm (concat (bucketed index buckets ks)) (ks ++ concat buckets)
  unfolding bucketed
  concat-bucketed-perm index buckets [] h = Perm.rfl
  concat-bucketed-perm index buckets (k ∷ ks) h =
      let pushed = push_at buckets (index k) k in
      let same = length-set buckets (index k) (get_or buckets (index k) [] ++ k ∷ []) in
      Perm.trans (concat-bucketed-perm index pushed ks (λ x. omega (arith, same, h x))) (
        Perm.trans (Perm.append_left ks (concat-push_at-perm buckets (index k) k (h k)))
          (perm_middle ks (concat buckets)))

  pub batch-perm :
      (n : ℕ) (index : K → ℕ) (ks : List K)
      → ((k : K) → index k < n)
      → Perm (concat (bucketed index (replicate n []) ks)) ks
  batch-perm n index ks h =
      let some_order =
        concat-bucketed-perm index (replicate n []) ks
          (λ k. omega (arith, h k, length-replicate {A = List K} n [])) in
      subst (Perm (concat (bucketed index (replicate n []) ks)))
        (ap (λ x. ks ++ x) (concat-replicate {K = K} n) ∙ append-nil ks) some_order

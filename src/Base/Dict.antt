-- ===== src/Base/Dict.antt =====
-- `HashMap` as an association list. The order of the list stands for the map's unspecified order.
use flare_core.Base.Tests.{if◌then◌else◌, is_some}
use flare_core.Base.Eq.{Equality, ◌==◌, eq_refl, contains, Distinct}
use flare_core.Base.Lists.{length}
use Prim.Native.Nat.{suc, ◌+◌}
use mathlib.Core.Path.{◌≡◌, refl}
use mathlib.Core.Bool.{Bool, false, ◌||◌, ◌&&◌, not}
use mathlib.Core.Option.{Option, none, some}
use mathlib.Core.List.{List, [], ◌∷◌}
use native.Mathlib.Omega.{arith}

abbrev pub Dict {ℓ κ} : Type ℓ → Type κ → Type (ℓ ⊔ κ)
Dict K V = List (K × V)

abbrev pub keys {ℓ κ} : {K : Type ℓ} {V : Type κ} → Dict K V → List K
keys [] = []
keys ((k, v) ∷ m) = k ∷ keys m

abbrev pub values {ℓ κ} : {K : Type ℓ} {V : Type κ} → Dict K V → List V
values [] = []
values ((k, v) ∷ m) = v ∷ values m

module _ {ℓ κ} {K : Type ℓ} {V : Type κ} ⦃e : Equality K⦄ where
  unfoldable pub get : K → Dict K V → Option V
  get wanted [] = none
  get wanted ((key, value) ∷ rest) = if key == wanted then some value else get wanted rest

  abbrev pub contains_key : K → Dict K V → Bool
  contains_key k m = is_some (get k m)

  unfoldable pub insert : K → V → Dict K V → Dict K V
  insert key value [] = (key, value) ∷ []
  insert key value ((at, old) ∷ rest) =
      if at == key then (key, value) ∷ rest else (at, old) ∷ insert key value rest

  unfoldable pub remove : K → Dict K V → Dict K V
  remove k [] = []
  remove k ((j, v) ∷ m) = let rest = remove k m in if j == k then rest else (j, v) ∷ rest

  pub get-insert :
      (k j : K) (v : V) (m : Dict K V) → get j (insert k v m) ≡ (if k == j then some v else get j m)
  unfolding get insert
  get-insert k j v [] = refl
  get-insert k j v ((i, w) ∷ m) =
      ground (arith, e.eq_iff k j, e.eq_iff i k, e.eq_iff i j, get-insert k j v m)

  pub get-remove :
      (k j : K) (m : Dict K V) → get j (remove k m) ≡ (if k == j then none else get j m)
  unfolding get remove
  get-remove k j [] = ground arith
  get-remove k j ((i, w) ∷ m) =
      ground (arith, e.eq_iff k j, e.eq_iff i k, e.eq_iff i j, get-remove k j m)

  pub contains-keys : (k : K) (m : Dict K V) → contains (keys m) k ≡ contains_key k m
  unfolding get
  contains-keys k [] = refl
  contains-keys k ((j, v) ∷ m) = ground (arith, contains-keys k m)

  contains-keys-insert :
      (k j : K) (v : V) (m : Dict K V)
      → contains (keys (insert k v m)) j ≡ ((k == j) || contains (keys m) j)
  unfolding insert
  contains-keys-insert k j v [] = refl
  contains-keys-insert k j v ((i, w) ∷ m) =
      ground (arith, e.eq_iff i k, e.eq_iff k j, e.eq_iff i j, contains-keys-insert k j v m)

  contains-keys-remove :
      (k j : K) (m : Dict K V)
      → contains (keys (remove k m)) j ≡ (not (k == j) && contains (keys m) j)
  unfolding remove
  contains-keys-remove k j [] = ground arith
  contains-keys-remove k j ((i, w) ∷ m) =
      ground (arith, e.eq_iff i k, e.eq_iff k j, e.eq_iff i j, contains-keys-remove k j m)

  pub insert-Distinct :
      (k : K) (v : V) (m : Dict K V) → Distinct (keys m) → Distinct (keys (insert k v m))
  unfolding insert
  insert-Distinct k v [] d = (refl, tt)
  insert-Distinct k v ((i, w) ∷ m) d =
      ground
        (arith, e.eq_iff i k, e.eq_iff k i, contains-keys-insert k i v m, insert-Distinct k v m d.1)

  pub remove-Distinct : (k : K) (m : Dict K V) → Distinct (keys m) → Distinct (keys (remove k m))
  unfolding remove
  remove-Distinct k [] d = tt
  remove-Distinct k ((i, w) ∷ m) d =
      ground (arith, contains-keys-remove k i m, remove-Distinct k m d.1)

  pub length-insert :
      (k : K) (v : V) (m : Dict K V)
      → length (insert k v m) ≡ (if contains_key k m then length m else suc (length m))
  unfolding get insert
  length-insert k v [] = refl
  length-insert k v ((i, w) ∷ m) = ground (arith, length-insert k v m)

  pub remove_absent : (k : K) (m : Dict K V) → contains_key k m ≡ false → remove k m ≡ m
  unfolding get remove
  remove_absent k [] h = refl
  remove_absent k ((i, w) ∷ m) h = ground (arith, remove_absent k m)

  pub length-remove :
      (k : K) (m : Dict K V)
      → Distinct (keys m)
      → length (remove k m) + (if contains_key k m then 1 else 0) ≡ length m
  unfolding get remove
  length-remove k [] d = omega arith
  length-remove k ((i, w) ∷ m) d =
      ground (arith, e.eq_iff i k, contains-keys k m, length-remove k m d.1)

  -- An insertion of a new key is undone by a removal.
  pub remove-insert_absent :
      (k : K) (v : V) (m : Dict K V) → contains_key k m ≡ false → remove k (insert k v m) ≡ m
  unfolding get insert remove
  remove-insert_absent k v [] h = ground (arith, eq_refl k)
  remove-insert_absent k v ((i, w) ∷ m) h = ground (arith, remove-insert_absent k v m)

-- ===== src/Connection/Manager/Scans.antt =====
-- Proofs on the snapshots of all connections in manager/lifecycle.rs.
use flare_core.Base.{
  ℕ, zero, suc, ◌≡◌, refl, Bool, true, false, not, ◌&&◌, List, [], ◌∷◌, ◌++◌, Option, none, some,
  arith, Text, text_eq, text_beq_iff, ◌==◌, contains, contains-append, Distinct, map, is_some,
}
use flare_core.Base.Dict.{Dict, keys, get, contains_key, contains-keys}
use flare_core.Connection.Info.{is_timeout}
use flare_core.Connection.Shards.{Shard, nth, index, shard, find}
use flare_core.Connection.Manager.State.{Hashers, ConnectionEntry, ConnectionManager}
use flare_core.Connection.Manager.Snapshots.{
  taken_from, taken_from_all, with_writer, with_user, connection_handles_except,
  timeout_connection_snapshots,
}
use flare_core.Connection.Manager.Valid.{entry_at, IsValid}

map-append {ℓ κ} :
    {A : Type ℓ} {B : Type κ} (f : A → B) (xs ys : List A) → map f (xs ++ ys) ≡ map f xs ++ map f ys
map-append f [] ys = refl
map-append f (x ∷ xs) ys = ground (arith, map-append f xs ys)

module _ {ℓ} {A : Type ℓ} (keep : Text → ConnectionEntry → Bool) (f : Text → ConnectionEntry → A)
    (name : A → Text) (named : (id : Text) (e : ConnectionEntry) → name (f id e) ≡ id) where
  -- Whether the scan keeps what is registered under the id.
  abbrev passes : Text → Option ConnectionEntry → Bool
  passes id none = false
  passes id (some e) = keep id e

  contains-taken_from :
      (d : Dict Text ConnectionEntry) (k : Text)
      → Distinct (keys d)
      → contains (map name (taken_from keep f d)) k ≡ passes k (get k d)
  unfolding get
  contains-taken_from [] k u = refl
  contains-taken_from ((id, e) ∷ d) k u = ground (
    arith,
    text_beq_iff id k,
    named id e,
    contains-keys id d,
    contains-taken_from d k u.1,
    contains-taken_from d id u.1,
  )

  contains-taken_absent :
      (s : List (Shard Text ConnectionEntry)) (k : Text)
      → ((i : ℕ) → Distinct (keys (nth s i).entries))
      → ((i : ℕ) → contains_key k (nth s i).entries ≡ false)
      → contains (map name (taken_from_all keep f s)) k ≡ false
  unfolding taken_from_all
  contains-taken_absent [] k u h = refl
  contains-taken_absent (x ∷ s) k u h = ground (
    arith,
    map-append name (taken_from keep f x.entries) (taken_from_all keep f s),
    contains-append (map name (taken_from keep f x.entries)) (map name (taken_from_all keep f s)) k,
    contains-taken_from x.entries k (u zero),
    h zero,
    contains-taken_absent s k (λ i. u (suc i)) (λ i. h (suc i)),
  )

  contains-taken_at :
      (s : List (Shard Text ConnectionEntry)) (t : ℕ) (k : Text)
      → ((i : ℕ) → (nth s i).poisoned ≡ false)
      → ((i : ℕ) → Distinct (keys (nth s i).entries))
      → ((i : ℕ) → contains_key k (nth s i).entries ≡ true → t ≡ i)
      → contains (map name (taken_from_all keep f s)) k ≡ passes k (get k (nth s t).entries)
  unfolding taken_from_all get
  contains-taken_at [] t k p u h = refl
  contains-taken_at (x ∷ s) zero k p u h = ground (
    arith,
    map-append name (taken_from keep f x.entries) (taken_from_all keep f s),
    contains-append (map name (taken_from keep f x.entries)) (map name (taken_from_all keep f s)) k,
    contains-taken_from x.entries k (u zero),
    p zero,
    contains-taken_absent s k (λ i. u (suc i)) (λ i. ground (arith, h (suc i))),
  )
  contains-taken_at (x ∷ s) (suc t) k p u h = ground (
    arith,
    map-append name (taken_from keep f x.entries) (taken_from_all keep f s),
    contains-append (map name (taken_from keep f x.entries)) (map name (taken_from_all keep f s)) k,
    contains-taken_from x.entries k (u zero),
    p zero,
    h zero,
    contains-taken_at s t k (λ i. p (suc i)) (λ i. u (suc i)) (λ i q. ground (arith, h (suc i))),
  )

  -- The names of a scan of a valid manager.
  contains-scan :
      (h : Hashers) (m : ConnectionManager) (k : Text)
      → IsValid h m
      → contains (map name (taken_from_all keep f m.connection_shards)) k
        ≡ passes k (entry_at h m k)
  unfolding find shard
  contains-scan h m k v =
      contains-taken_at m.connection_shards (index h.hash_id m.connection_shards k) k
        v.entries.healthy v.entries.distinct (λ i. v.entries.placed i k)

abbrev pub timed_out : ℕ → ℕ → Option ConnectionEntry → Bool
timed_out now timeout none = false
timed_out now timeout (some e) = is_timeout now e.info timeout

module _ (h : Hashers) (m : ConnectionManager) (v : IsValid h m) where
  pub contains-timeout_connection_snapshots :
      (now timeout : ℕ) (id : Text)
      → contains (map (λ x. x.0) (timeout_connection_snapshots now m timeout)) id
        ≡ timed_out now timeout (entry_at h m id)
  unfolding timeout_connection_snapshots
  contains-timeout_connection_snapshots now timeout id = ground (
    arith,
    contains-scan (λ j e. is_timeout now e.info timeout) with_user (λ x. x.0) (λ j e. refl) h m id
        v,
  )

  -- A broadcast that excludes a connection is given all the others of a valid manager.
  pub contains-connection_handles_except :
      (excluded id : Text)
      → contains (map (λ x. x.0) (connection_handles_except m excluded)) id
        ≡ (is_some (entry_at h m id) && not (id == excluded))
  unfolding connection_handles_except
  contains-connection_handles_except excluded id = ground (
    arith,
    contains-scan (λ j e. not (j == excluded)) with_writer (λ x. x.0) (λ j e. refl) h m id v,
  )

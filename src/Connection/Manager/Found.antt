-- ===== src/Connection/Manager/Found.antt =====
-- Proofs on the snapshots of given ids in manager/lifecycle.rs.
use flare_core.Base.{
  ◌≡◌, refl, sym, ap, ◌∙◌, List, [], ◌∷◌, ◌++◌, Option, none, some, Text, text_eq, length, subst,
}
use flare_core.Connection.Shards.{index, index-lt, find, shard}
use flare_core.Connection.Shards.Batches.{run_batch-Inv, batch-perm}
use flare_core.Connection.Manager.State.{Hashers, ConnectionEntry, ConnectionManager}
use flare_core.Connection.Manager.Snapshots.{for_ids, look_up, locked, add_found}
use flare_core.Connection.Manager.Valid.{entry_at, IsValid}
use mathlib.Core.List.{filter_map, filter_map-append, append-nil, Perm}
use mathlib.Core.List.Perm
use mathlib.Core.Option as Option

filter_map-nil {ℓ κ} : {A : Type ℓ} {B : Type κ} (f : A → Option B) → filter_map f [] ≡ []
unfolding filter_map
filter_map-nil f = refl

module _ {ℓ} {A : Type ℓ} (f : Text → ConnectionEntry → A) (h : Hashers) (m : ConnectionManager)
    (v : IsValid h m) where
  -- What is registered under an id, in the form of the snapshot.
  abbrev snapshot_of : Text → Option A
  snapshot_of id = Option.map (f id) (entry_at h m id)

  filter_map-one :
      (id : Text) (found : List A) (o : Option ConnectionEntry)
      → entry_at h m id ≡ o
      → add_found f m id found o ≡ found ++ filter_map snapshot_of (id ∷ [])
  unfolding filter_map
  filter_map-one id found none q = rw q (sym (append-nil found))
  filter_map-one id found (some e) q = rw q refl

  found_step :
      (found : List A) (done : List Text) (id : Text)
      → found ≡ filter_map snapshot_of done
      → look_up f m (index h.hash_id m.connection_shards id) found id
        ≡ filter_map snapshot_of (done ++ id ∷ [])
  unfolding find shard
  found_step found done id e =
      filter_map-one id found (entry_at h m id) refl
      ∙ ap (λ x. x ++ filter_map snapshot_of (id ∷ [])) e
      ∙ sym (filter_map-append snapshot_of done (id ∷ []))

  -- In a valid manager the snapshots of some ids are, up to their order, those of the ids that are
  -- registered, one for each time that it is asked for.
  for_ids-perm : (ids : List Text) → Perm (for_ids f m h ids) (filter_map snapshot_of ids)
  unfolding for_ids
  for_ids-perm ids =
      let s = m.connection_shards in
      let exact =
        run_batch-Inv (look_up f m) (locked f m) (index h.hash_id s)
          (λ found done. found ≡ filter_map snapshot_of done)
          (λ i found done _. v.entries.healthy i) found_step (length s) [] ids
          (sym (filter_map-nil snapshot_of)) in
      let order =
        batch-perm (length s) (index h.hash_id s) ids
          (λ k. index-lt h.hash_id s k v.entries.nonempty) in
      subst (λ x. Perm x (filter_map snapshot_of ids)) (sym exact)
        (Perm.filter_map snapshot_of order)

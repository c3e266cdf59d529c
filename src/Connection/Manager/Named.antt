-- ===== src/Connection/Manager/Named.antt =====
-- Proofs on the methods of manager/ops.rs by name.
use flare_core.Base.{
  ℕ, ◌≡◌, refl, Bool, true, false, Option, none, some, arith, Text, text_eq, text_beq_iff, ◌==◌,
  if◌then◌else◌, contains, ok, err, Option-cases, Bool-cases, inl, inr,
}
use flare_core.Device.Registry.Defs.{DeviceOwner, owner_eq}
use flare_core.Device.Registry.Consistency.{is_owner}
use flare_core.Connection.Info.{update_active, ConnectionInfo, MessageParser, info_new, owner}
use flare_core.Connection.Shards.{find, find-insert}
use flare_core.Connection.Shards.Sound.{shard-healthy, insert-IsSound, total-insert}
use flare_core.Connection.Manager.State.{Hashers, ConnectionEntry, ConnectionManager}
use flare_core.Connection.Manager.Users.{get_user_connections}
use flare_core.Connection.Manager.Lifecycle.{not_found, add_connection_with_limit}
use flare_core.Connection.Manager.Ops.{
  Codec, completed, update_info, with_entry, bind_user, update_connection_negotiation_with_pipeline,
  mark_negotiation_confirmed, update_connection_active,
}
use flare_core.Connection.Manager.Valid.{entry_at, IsValid, IsIndexSound-elsewhere}
use flare_core.Connection.Manager.Updates.{changed, update_info-IsValid, entry_at-update_info}
use flare_core.Connection.Manager.Adding.{is_ok, entry_at-add_connection}
use flare_core.Connection.Manager.Listing.{contains-get_user_connections}

-- A confirmation is only of a negotiation that was completed.
abbrev pub is_confirmed : ConnectionInfo → Bool
is_confirmed i = if i.negotiation_confirmed then i.negotiation_completed else true

abbrev pub AllConfirmed : Hashers → ConnectionManager → Type 0
AllConfirmed h m =
    (id : Text) (e : ConnectionEntry) → entry_at h m id ≡ some e → is_confirmed e.info ≡ true

abbrev pub is_completed : Option ConnectionEntry → Bool
is_completed none = false
is_completed (some e) = e.info.negotiation_completed

module _ (h : Hashers) (m : ConnectionManager) (id : Text) (v : IsValid h m) where
  -- After `bind_user` on a registered connection of a valid manager, the connection is listed for
  -- its new user under its tenant and for nobody else, and every other connection keeps its place.
  pub contains-bind_user :
      (user : Text) (e : ConnectionEntry) (o : DeviceOwner) (j : Text)
      → entry_at h m id ≡ some e
      → contains (get_user_connections h (bind_user h m id user).0 o) j ≡ (
          if id == j
          then is_owner o (owner (record e.info { user_id = some user }))
          else contains (get_user_connections h m o) j)
  unfolding bind_user
  contains-bind_user user e o j q =
      let bind = λ (info : ConnectionInfo). record info { user_id = some user } in
      ground (
        arith,
        contains-get_user_connections h m v o j,
        contains-get_user_connections h (update_info h m id bind).0
            (update_info-IsValid h m id bind v) o j,
        entry_at-update_info h m id bind v j,
      )

  -- The parser of a pipeline negotiation is what the connection keeps, and its negotiation is complete.
  pub entry_at-update_connection_negotiation_with_pipeline :
      (c : Codec) (user : Option Text) (parser : MessageParser) (pipeline : Option ℕ) (j : Text)
      → entry_at h (update_connection_negotiation_with_pipeline h m id c user parser pipeline).0 j
        ≡ (if id == j
            then changed (completed c user parser pipeline) (entry_at h m id)
            else entry_at h m j)
  unfolding update_connection_negotiation_with_pipeline
  entry_at-update_connection_negotiation_with_pipeline c user parser pipeline j =
      entry_at-update_info h m id (completed c user parser pipeline) v j

  replaced-IsValid :
      (e : ConnectionEntry) (i : ConnectionInfo)
      → entry_at h m id ≡ some e
      → owner i ≡ owner e.info
      → IsValid h (with_entry h m id e i)
  replaced-IsValid e i q same = record {
    entries = insert-IsSound h.hash_id m.connection_shards id _ v.entries;
    index =
        IsIndexSound-elsewhere (with_entry h m id e i).connection_shards m.connection_count
          m.closed_writers v.index;
    indexed = λ o j. ground (
      arith,
      text_beq_iff id j,
      find-insert h.hash_id m.connection_shards id j (record e { info = i }) v.entries.nonempty,
      v.indexed o j,
    );
    counted = ground (
      arith,
      v.counted,
      total-insert h.hash_id m.connection_shards id (record e { info = i }) v.entries,
    );
    bounded = v.bounded;
  }

  entry_at-replaced :
      (e : ConnectionEntry) (i : ConnectionInfo) (j : Text)
      → entry_at h (with_entry h m id e i) j
        ≡ (if id == j then some (record e { info = i }) else entry_at h m j)
  entry_at-replaced e i j =
      find-insert h.hash_id m.connection_shards id j (record e { info = i }) v.entries.nonempty

  refresh-missing :
      (now : ℕ)
      → entry_at h m id ≡ none
      → update_connection_active h m now id ≡ (m, err (not_found id))
  unfolding update_connection_active find
  refresh-missing now q = ground (arith, shard-healthy h.hash_id m.connection_shards id v.entries)

  refresh-done :
      (now : ℕ) (e : ConnectionEntry)
      → entry_at h m id ≡ some e
      → update_connection_active h m now id
        ≡ (with_entry h m id e (update_active now e.info), ok tt)
  unfolding update_connection_active find
  refresh-done now e q = ground (arith, shard-healthy h.hash_id m.connection_shards id v.entries)

  confirm-missing :
      entry_at h m id ≡ none → mark_negotiation_confirmed h m id ≡ (m, err (not_found id))
  unfolding mark_negotiation_confirmed find
  confirm-missing q = ground (arith, shard-healthy h.hash_id m.connection_shards id v.entries)

  confirm-refused :
      (e : ConnectionEntry)
      → entry_at h m id ≡ some e
      → e.info.negotiation_completed ≡ false
      → (mark_negotiation_confirmed h m id).0 ≡ m
        × (is_ok (mark_negotiation_confirmed h m id).1 ≡ false)
  unfolding mark_negotiation_confirmed find
  confirm-refused e q c = ground (arith, shard-healthy h.hash_id m.connection_shards id v.entries)

  confirm-done :
      (e : ConnectionEntry)
      → entry_at h m id ≡ some e
      → e.info.negotiation_completed ≡ true
      → mark_negotiation_confirmed h m id
        ≡ (with_entry h m id e (record e.info { negotiation_confirmed = true }), ok tt)
  unfolding mark_negotiation_confirmed find
  confirm-done e q c = ground (arith, shard-healthy h.hash_id m.connection_shards id v.entries)

  -- A sign of life keeps the manager valid.
  pub update_connection_active-IsValid :
      (now : ℕ) → IsValid h (update_connection_active h m now id).0
  unfolding owner update_active
  update_connection_active-IsValid now = elim (Option-cases (entry_at h m id)) [
    | inl q ↦ rw (refresh-missing now q) v
    | inr (e, q) ↦ rw (refresh-done now e q) (replaced-IsValid e (update_active now e.info) q refl)
  ]

  -- Confirming a negotiation keeps the manager valid.
  pub mark_negotiation_confirmed-IsValid : IsValid h (mark_negotiation_confirmed h m id).0
  unfolding owner
  mark_negotiation_confirmed-IsValid = elim (Option-cases (entry_at h m id)) [
    | inl q ↦ rw (confirm-missing q) v
    | inr (e, q) ↦ elim (Bool-cases e.info.negotiation_completed) [
      | inl c ↦
          rw (confirm-done e q c)
            (replaced-IsValid e (record e.info { negotiation_confirmed = true }) q refl)
      | inr c ↦ rw (confirm-refused e q c).0 v
    ]
  ]

  -- On a valid manager `mark_negotiation_confirmed` succeeds exactly on a registered connection
  -- whose negotiation is complete.
  pub mark_negotiation_confirmed-is_ok :
      is_ok (mark_negotiation_confirmed h m id).1 ≡ is_completed (entry_at h m id)
  mark_negotiation_confirmed-is_ok = elim (Option-cases (entry_at h m id)) [
    | inl q ↦ ground (arith, confirm-missing q)
    | inr (e, q) ↦ ground (arith, confirm-done e q, confirm-refused e q)
  ]

  -- If in a valid manager only complete negotiations are confirmed, that is so after
  -- `mark_negotiation_confirmed`.
  pub mark_negotiation_confirmed-AllConfirmed :
      AllConfirmed h m → AllConfirmed h (mark_negotiation_confirmed h m id).0
  mark_negotiation_confirmed-AllConfirmed a j f at = elim (Option-cases (entry_at h m id)) [
    | inl q ↦ ground (arith, confirm-missing q, a j f)
    | inr (e, q) ↦ ground (
      arith,
      confirm-done e q,
      confirm-refused e q,
      entry_at-replaced e (record e.info { negotiation_confirmed = true }) j,
      a j f,
    )
  ]

-- A change of a connection's information that confirms nothing leaves all confirmed.
pub update_info-AllConfirmed :
    (h : Hashers) (m : ConnectionManager) (id : Text) (f : ConnectionInfo → ConnectionInfo)
    → IsValid h m
    → ((i : ConnectionInfo) → is_confirmed i ≡ true → is_confirmed (f i) ≡ true)
    → AllConfirmed h m
    → AllConfirmed h (update_info h m id f).0
update_info-AllConfirmed h m id f v keeps a j g at = elim (Option-cases (entry_at h m id)) [
  | inl q ↦ ground (arith, entry_at-update_info h m id f v j, a j g)
  | inr (e, q) ↦ ground (arith, entry_at-update_info h m id f v j, a j g, a id e q, keeps e.info)
]

pub add_connection-AllConfirmed :
    (h : Hashers) (m : ConnectionManager) (now unix : ℕ) (id : Text) (connection writer : ℕ)
    (user : Option Text) (requires_auth : Bool) (max_connections : ℕ)
    → IsValid h m
    → AllConfirmed h m
    → AllConfirmed h
        (add_connection_with_limit h m now unix id connection writer user requires_auth
          max_connections).0
unfolding info_new
add_connection-AllConfirmed h m now unix id connection writer user requires_auth max v a j e at =
    ground (
      arith,
      entry_at-add_connection h m now unix id connection writer user requires_auth max v j,
      a j e,
    )

-- ===== src/Server/Connect/Entries.antt =====
-- Proofs on src/server/transports/server_core.rs: what the steps of a connection's set-up make of the
-- connection, where nothing else touches the server's tables meanwhile.
use flare_core.Base.{
  ℕ, ◌+◌, ◌≡◌, refl, sym, ◌∙◌, Option, none, some, arith, Text, text_eq, text_beq_iff, contains,
  Result, Option-cases, Bool-cases, inl, inr, subst, eq_refl,
}
use flare_core.Base.Dict.{get}
use flare_core.Connection.Info.{
  ConnectionInfo, MessageParser, set_authenticated, or_keep, parser_new,
}
use flare_core.Connection.Manager.State.{Hashers, ConnectionEntry, ConnectionManager}
use flare_core.Connection.Manager.Listing.{get_connection-entry_at}
use flare_core.Connection.Manager.Ops.{
  Codec, negotiated, completed, update_info, update_connection_negotiation,
  set_connection_authenticated, update_connection_negotiation_with_pipeline,
}
use flare_core.Connection.Manager.Updates.{update_info-IsValid, entry_at-update_info}
use flare_core.Connection.Manager.Valid.{entry_at, IsValid}
use flare_core.Device.Platform.{DeviceInfo}
use flare_core.Device.Registry.Consistency.{IsConsistent, kicked-add_device}
use flare_core.Device.Registry.Defs.{DeviceOwner, add_device}
use flare_core.Device.Strategy.{DeviceConflictStrategy}
use flare_core.DeviceHandler.{Server, handle_device_conflict, handle_device_conflict-kicks}
use flare_core.Errors.{FlareError}
use flare_core.Negotiation.Connect.{NegotiationResult}
use flare_core.Negotiation.Settle.{ConnectionIdentity, connection_metadata}
use flare_core.Parser.{Bytes}
use flare_core.Server.Pipelines.{key_eq, cached, pipeline_for_negotiation_profile}
use flare_core.Server.World.{PipelineCacheKey, World, ServerCore, Library, Environment, connections}
use flare_core.Server.Connect.{
  update_connection_info, mark_connection_authenticated, conflicts_of, registered, settled_codec,
}
use flare_core.Server.Connect.Completion.{finalize_negotiation_after_ack}
use flare_core.Server.Connect.Tables.{IsSound}

-- What is waited for leaves the server's tables as they are.
pub record IsQuiet {S : Type 0} (env : Environment S) : Type 0 where
  pub sleeps : (w : World S) → (env.sleep w).server ≡ w.server
  pub builds : (w : World S) → (env.build_pipeline w).server ≡ w.server
  pub sends : (conn : ℕ) (bytes : Bytes) (w : World S) → (env.send conn bytes w).0.server ≡ w.server
  pub connects :
      (on_connect : Text → World S → World S × Result FlareError (Unit {0})) (id : Text)
      (w : World S)
      → env.on_connect ≡ some on_connect
      → (on_connect id w).0.server ≡ w.server

pub or_keep_again :
    (a b : Option Text) → let kept = or_keep a (or_keep a b) in or_keep kept kept ≡ or_keep a b
or_keep_again (some x) b = refl
or_keep_again none (some y) = refl
or_keep_again none none = refl

handle_device_conflict-spares :
    (h : Hashers) (strategy : Option DeviceConflictStrategy) (s : Server) (o : DeviceOwner)
    (id platform : Text) (info : DeviceInfo)
    → IsValid h s.connections
    → IsConsistent s.devices
    → entry_at h (handle_device_conflict h strategy s o id platform info).0.connections id
      ≡ entry_at h s.connections id
handle_device_conflict-spares h none s o id platform info v c =
    unfold handle_device_conflict in refl
handle_device_conflict-spares h (some strategy) s o id platform info v c =
    let (valid, told, same, found) =
      handle_device_conflict-kicks h strategy s o id platform info v c in
    elim (Bool-cases (contains (add_device strategy s.devices o id info).1 id)) [
      | inl kicked ↦ absurd (
          ground (
            arith,
            (kicked-add_device strategy s.devices o id info id c kicked).0,
            text_beq_iff id id,
          ))
      | inr spared ↦ rw (found id, spared) refl
    ]

entry_at-updated :
    (h : Hashers) (m : ConnectionManager) (id : Text) (f : ConnectionInfo → ConnectionInfo)
    (e : ConnectionEntry)
    → IsValid h m
    → entry_at h m id ≡ some e
    → entry_at h (update_info h m id f).0 id ≡ some (record e { info = f e.info })
entry_at-updated h m id f e v q = rw (entry_at-update_info h m id f v id, eq_refl id, q) refl

module _ {S : Type 0} (l : Library) (env : Environment S) (core : ServerCore) where
  abbrev pub entry_in : World S → Text → Option ConnectionEntry
  entry_in w id = entry_at l.hashers (connections w) id

  pub registered-entry :
      (id : Text) (n : NegotiationResult) (i : ConnectionIdentity) (w : World S)
      (e : ConnectionEntry)
      → IsSound l.hashers w
      → entry_in w id ≡ some e
      → (t : ℕ) × (entry_in (registered l env core id n i w) id
          ≡ some (record e {
            info =
                set_authenticated t
                  (negotiated (settled_codec l env core n) i.user_id (connection_metadata i) e.info)
                  i.user_id;
          }))
  unfolding registered update_connection_info mark_connection_authenticated
      update_connection_negotiation set_connection_authenticated
  registered-entry id n i w e v q =
      let f = negotiated (settled_codec l env core n) i.user_id (connection_metadata i) in
      let m = (update_info l.hashers (connections w) id f).0 in
      let t = env.unix (update_connection_info l env core id (settled_codec l env core n) i w) in
      (
        t,
        entry_at-updated l.hashers m id (λ info. set_authenticated t info i.user_id) _
            (update_info-IsValid l.hashers (connections w) id f v.valid)
            (entry_at-updated l.hashers (connections w) id f e v.valid q),
      )

  pub conflicts_of-spares :
      (id : Text) (info : Option DeviceInfo) (o : Option DeviceOwner) (w : World S)
      → IsSound l.hashers w
      → entry_in (conflicts_of l env core id info o w).0 id ≡ entry_in w id
  conflicts_of-spares id none o w v = refl
  conflicts_of-spares id (some info) none w v = refl
  conflicts_of-spares id (some info) (some o) w v =
      handle_device_conflict-spares l.hashers core.device_manager w.server o id
        (l.debug_platform info.platform) info v.valid v.consistent

  cached-server :
      (key : PipelineCacheKey) (made : ℕ) (w : World S) (found : Option ℕ)
      → (cached env key made w found).0.server ≡ w.server
  cached-server key made w none = refl
  cached-server key made w (some p) = refl

  pipeline-server :
      (key : PipelineCacheKey) (w : World S)
      → IsQuiet env
      → (pipeline_for_negotiation_profile env core key w).0.server ≡ w.server
  unfolding pipeline_for_negotiation_profile
  pipeline-server key w quiet = elim (Bool-cases core.has_pipeline) [
    | inr off ↦ rw off refl
    | inl on ↦ rw on (elim (Option-cases (get key w.pipeline_cache)) [
      | inr (p, q) ↦ rw q refl
      | inl q ↦ rw q (
          cached-server key w.pipelines_made _ _
          ∙ quiet.builds (record w { pipelines_made = w.pipelines_made + 1 }))
    ])
  ]

  -- The last update, on what the connection is then.
  pub finalized-entry :
      (id : Text) (p : MessageParser) (w : World S) (e : ConnectionEntry)
      → IsQuiet env
      → IsSound l.hashers w
      → entry_in w id ≡ some e
      → (c : Codec) × (pipeline : Option ℕ) × (entry_in
            (finalize_negotiation_after_ack l env core id p w)
            id
          ≡ some (record e {
            info =
                completed c e.info.user_id
                  (parser_new p.default_format p.default_compression p.default_encryption)
                  pipeline
                  e.info;
          }))
  unfolding finalize_negotiation_after_ack update_connection_negotiation_with_pipeline
  finalized-entry id p w e quiet v q =
      let key : PipelineCacheKey = record {
        format = p.default_format;
        compression = p.default_compression;
        encryption = p.default_encryption;
      } in
      let c : Codec = record {
        device_info = e.info.device_info;
        serialization_format = p.default_format;
        compression = p.default_compression;
        encryption = p.default_encryption;
      } in
      let (built, pipeline) = pipeline_for_negotiation_profile env core key w in
      let same = pipeline-server key w quiet in
      let parser = parser_new p.default_format p.default_compression p.default_encryption in
      (
        c,
        pipeline,
        rw (get_connection-entry_at l.hashers (connections w) v.valid id, q)
            (entry_at-updated l.hashers (connections built) id
              (completed c e.info.user_id parser pipeline) e
              (subst (λ s. IsValid l.hashers s.connections) (sym same) v.valid)
              (subst (λ s. entry_at l.hashers s.connections id ≡ some e) (sym same) q)),
      )

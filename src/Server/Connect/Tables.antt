-- ===== src/Server/Connect/Tables.antt =====
-- Proofs on src/server/transports/server_core.rs: the server's tables, and the steps of a connection's
-- set-up that wait for nothing.
use flare_core.Base.{◌≡◌, Option, none, some, sym, subst, Text}
use flare_core.Connection.Manager.Ops.{
  negotiated, update_connection_negotiation, set_connection_authenticated,
}
use flare_core.Connection.Manager.State.{Hashers}
use flare_core.Connection.Manager.Updates.{update_info-IsValid}
use flare_core.Connection.Manager.Valid.{IsValid}
use flare_core.Device.Platform.{DeviceInfo}
use flare_core.Device.Registry.Consistency.{IsConsistent, add_device-IsConsistent}
use flare_core.Device.Registry.Defs.{DeviceOwner}
use flare_core.Device.Strategy.{DeviceConflictStrategy}
use flare_core.DeviceHandler.{Server, handle_device_conflict, handle_device_conflict-kicks}
use flare_core.Negotiation.Connect.{NegotiationResult}
use flare_core.Negotiation.Settle.{ConnectionIdentity, connection_metadata}
use flare_core.Server.Pipelines.{key_eq}
use flare_core.Server.World.{World, ServerCore, Library, Environment, connections, devices}
use flare_core.Server.Connect.{
  update_connection_info, mark_connection_authenticated, conflicts_of, registered, settled_codec,
}

pub record IsSound {S : Type 0} (h : Hashers) (w : World S) : Type 0 where
  pub valid : IsValid h (connections w)
  pub consistent : IsConsistent (devices w)

abbrev pub Keeps : {S : Type 0} → Hashers → (World S → World S) → Type 0
Keeps h f = (w : World _) → IsSound h w → IsSound h (f w)

pub moved-IsSound :
    {S : Type 0} (h : Hashers) (w t : World S) → t.server ≡ w.server → IsSound h w → IsSound h t
moved-IsSound h w t same v = record {
  valid = subst (λ s. IsValid h s.connections) (sym same) v.valid;
  consistent = subst (λ s. IsConsistent s.devices) (sym same) v.consistent;
}

handle_device_conflict-IsSound :
    (h : Hashers) (strategy : Option DeviceConflictStrategy) (s : Server) (o : DeviceOwner)
    (id platform : Text) (info : DeviceInfo)
    → IsValid h s.connections
    → IsConsistent s.devices
    → let t = (handle_device_conflict h strategy s o id platform info).0 in
      IsValid h t.connections × IsConsistent t.devices
handle_device_conflict-IsSound h none s o id platform info v c =
    unfold handle_device_conflict in (v, c)
handle_device_conflict-IsSound h (some strategy) s o id platform info v c =
    let (valid, told, same, found) =
      handle_device_conflict-kicks h strategy s o id platform info v c in
    (valid, rw same (add_device-IsConsistent strategy s.devices o id info c))

module _ {S : Type 0} (l : Library) (env : Environment S) (core : ServerCore) where
  pub registered-IsSound :
      (id : Text) (n : NegotiationResult) (i : ConnectionIdentity)
      → Keeps l.hashers (registered l env core id n i)
  unfolding registered update_connection_info mark_connection_authenticated
      update_connection_negotiation set_connection_authenticated
  registered-IsSound id n i w v = record {
    valid = update_info-IsValid l.hashers _ id _ (
        update_info-IsValid l.hashers (connections w) id
          (negotiated (settled_codec l env core n) i.user_id (connection_metadata i)) v.valid);
    consistent = v.consistent;
  }

  pub conflicts_of-IsSound :
      (id : Text) (info : Option DeviceInfo) (o : Option DeviceOwner)
      → Keeps l.hashers (λ w. (conflicts_of l env core id info o w).0)
  conflicts_of-IsSound id none o w v = v
  conflicts_of-IsSound id (some info) none w v = v
  conflicts_of-IsSound id (some info) (some o) w v =
      let (valid, consistent) =
        handle_device_conflict-IsSound l.hashers core.device_manager w.server o id
          (l.debug_platform info.platform) info v.valid v.consistent in
      record { valid = valid; consistent = consistent }

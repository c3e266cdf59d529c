-- ===== src/Connection/Manager/Ops.antt =====
-- Changing what is known of a connection: manager/ops.rs.
use flare_core.Base.{
  ℕ, true, [], ◌∷◌, ◌++◌, Option, none, some, Text, text_eq, if◌then◌else◌, ok, err,
}
use flare_core.Base.Chars.{codes}
use flare_core.Base.Dict.{Dict, get, insert}
use flare_core.Device.Platform.{DeviceInfo}
use flare_core.Device.Registry.Defs.{owner_eq}
use flare_core.Connection.Info.{
  ConnectionInfo, SerializationFormat, CompressionAlgorithm, EncryptionAlgorithm, MessageParser,
  set_authenticated, owner, update_active, or_keep,
}
use flare_core.Connection.Manager.State.{
  Hashers, protocol_error, ConnectionEntry, ConnectionManager, Outcome,
}
use flare_core.Connection.Manager.Users.{reindex_user_connection}
use flare_core.Connection.Manager.Lifecycle.{lock_error, not_found, id_shard, put_entry}

-- What `CONNECT` settles, but for the user and the metadata.
pub record Codec : Type 0 where
  pub device_info : Option DeviceInfo
  pub serialization_format : SerializationFormat
  pub compression : CompressionAlgorithm
  pub encryption : EncryptionAlgorithm

abbrev pub merge : Dict Text Text → Dict Text Text → Dict Text Text
merge [] old = old
merge ((k, v) ∷ meta) old = merge meta (insert k v old)

abbrev pub merge_given : Option (Dict Text Text) → Dict Text Text → Dict Text Text
merge_given none old = old
merge_given (some meta) old = merge meta old

-- The assignments of `update_connection_negotiation`.
unfoldable pub negotiated :
    Codec → Option Text → Option (Dict Text Text) → ConnectionInfo → ConnectionInfo
negotiated c user meta info = record info {
  device_info = c.device_info;
  serialization_format = c.serialization_format;
  compression = c.compression;
  encryption = c.encryption;
  metadata = merge_given meta info.metadata;
  user_id = or_keep user info.user_id;
}

-- The assignments of `update_connection_negotiation_with_pipeline`.
unfoldable pub completed :
    Codec → Option Text → MessageParser → Option ℕ → ConnectionInfo → ConnectionInfo
completed c user parser pipeline info = record info {
  device_info = c.device_info;
  serialization_format = c.serialization_format;
  compression = c.compression;
  encryption = c.encryption;
  negotiation_completed = true;
  cached_parser = some parser;
  cached_pipeline = pipeline;
  user_id = or_keep user info.user_id;
}

module _ (h : Hashers) where
  abbrev pub with_entry :
      ConnectionManager → Text → ConnectionEntry → ConnectionInfo → ConnectionManager
  with_entry m id e info = put_entry h m id (record e { info = info })

  -- The common shape: take the shard's lock, find the connection, assign to its information, and
  -- move its user index from the owner before to the owner after.
  unfoldable pub update_info :
      ConnectionManager → Text → (ConnectionInfo → ConnectionInfo) → Outcome (Unit {0})
  update_info m id f =
      if (id_shard h m id).poisoned
      then (m, err lock_error)
      else elim (get id (id_shard h m id).entries) [
        | none ↦ (m, err (not_found id))
        | some e ↦
            reindex_user_connection h (with_entry m id e (f e.info)) id (owner e.info)
              (owner (f e.info))
      ]

  unfoldable pub bind_user : ConnectionManager → Text → Text → Outcome (Unit {0})
  bind_user m id user = update_info m id (λ info. record info { user_id = some user })

  unfoldable pub set_connection_authenticated :
      ConnectionManager → ℕ → Text → Option Text → Outcome (Unit {0})
  set_connection_authenticated m unix id user =
      update_info m id (λ info. set_authenticated unix info user)

  unfoldable pub update_connection_negotiation :
      ConnectionManager → Text → Codec → Option Text → Option (Dict Text Text) → Outcome (Unit {0})
  update_connection_negotiation m id c user meta = update_info m id (negotiated c user meta)

  unfoldable pub update_connection_negotiation_with_pipeline :
      ConnectionManager → Text → Codec → Option Text → MessageParser → Option ℕ → Outcome (Unit {0})
  update_connection_negotiation_with_pipeline m id c user parser pipeline =
      update_info m id (completed c user parser pipeline)

  -- Assignments that leave the user and the metadata alone move no index.
  unfoldable pub update_connection_active : ConnectionManager → ℕ → Text → Outcome (Unit {0})
  update_connection_active m now id =
      if (id_shard h m id).poisoned
      then (m, err lock_error)
      else elim (get id (id_shard h m id).entries) [
        | none ↦ (m, err (not_found id))
        | some e ↦ (with_entry m id e (update_active now e.info), ok tt)
      ]

  unfoldable pub mark_negotiation_confirmed : ConnectionManager → Text → Outcome (Unit {0})
  mark_negotiation_confirmed m id =
      if (id_shard h m id).poisoned
      then (m, err lock_error)
      else elim (get id (id_shard h m id).entries) [
        | none ↦ (m, err (not_found id))
        | some e ↦
            if e.info.negotiation_completed
            then (with_entry m id e (record e.info { negotiation_confirmed = true }), ok tt)
            else (
              m,
              err (
                  protocol_error (
                    codes "Cannot confirm negotiation for connection "
                    ++ (id ++ codes ": negotiation not completed"))),
            )
      ]

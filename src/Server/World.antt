-- ===== src/Server/World.antt =====
-- `ServerCore` of src/server/transports/server_core.rs, the world it works on, and what it calls that is
-- not its own. Where the source waits, other tasks run: such a call takes the whole world and gives the
-- world as it is when the wait is over. Only the kicks of conflicting devices run as one step.
use flare_core.Base.{ℕ, Bool, List, Option, Text, Result}
use flare_core.Connection.Info.{SerializationFormat, CompressionAlgorithm, EncryptionAlgorithm}
use flare_core.Connection.Manager.State.{Hashers, ConnectionManager}
use flare_core.Device.Platform.{DeviceInfo, DevicePlatform}
use flare_core.Device.Registry.Defs.{DeviceRegistry}
use flare_core.Device.Strategy.{DeviceConflictStrategy}
use flare_core.DeviceHandler as Conflicts
use flare_core.Errors.{FlareError}
use flare_core.Negotiation.Connect.{Metadata}
use flare_core.Negotiation.Settle.{ServerDefaults}
use flare_core.Parser.{Bytes, Codecs, ParseError}
use flare_core.Server.Authentication.{AuthResult}
use flare_core.Server.Frames.{Frame}

pub record PipelineCacheKey : Type 0 where
  pub format : SerializationFormat
  pub compression : CompressionAlgorithm
  pub encryption : EncryptionAlgorithm

-- The server's tables with what was told to kicked connections, the shared pipelines with how many
-- were made, and all else: the application, the network, the clocks.
pub record World (S : Type 0) : Type 0 where
  pub server : Conflicts.Server
  pub pipeline_cache : List (PipelineCacheKey × ℕ)
  pub pipelines_made : ℕ
  pub app : S

-- `has_pipeline` is whether a middleware or a processor is shared. A device manager is its strategy.
pub record ServerCore : Type 0 where
  pub auth_enabled : Bool
  pub device_manager : Option DeviceConflictStrategy
  pub defaults : ServerDefaults
  pub has_pipeline : Bool

-- What only computes: hash values, the registered codecs and their names, and texts that other
-- packages print.
pub record Library : Type 0 where
  pub hashers : Hashers
  pub codecs : Codecs Frame
  pub compressors : Text → Bool
  pub encryptors : Text → Bool
  pub to_lowercase : Text → Text
  pub debug_platform : DevicePlatform → Text
  pub to_json : List Text → Bytes
  pub codec_failure : ParseError → FlareError

-- What is waited for, and the clock and the source of identifiers. A connection is its handle.
pub record Environment (S : Type 0) : Type 0 where
  pub authenticator : Option (
      Text
      → Text
      → Option DeviceInfo
      → Option Metadata
      → World S
      → World S × Result FlareError AuthResult)
  pub on_connect : Option (Text → World S → World S × Result FlareError (Unit {0}))
  pub send : ℕ → Bytes → World S → World S × Result FlareError (Unit {0})
  pub sleep : World S → World S
  pub build_pipeline : World S → World S
  pub unix : World S → ℕ
  pub generate_message_id : World S → Text

abbrev pub connections : {S : Type 0} → World S → ConnectionManager
connections w = w.server.connections

abbrev pub devices : {S : Type 0} → World S → DeviceRegistry
devices w = w.server.devices

abbrev pub with_connections : {S : Type 0} → World S → ConnectionManager → World S
with_connections w m = record w { server = record w.server { connections = m } }

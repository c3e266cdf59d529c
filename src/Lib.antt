-- ===== src/Lib.antt =====
-- flare-core: a long-connection library in Rust, with a server that keeps connections and devices,
-- a client, and the protocol between them. Each part below is modelled by the files named beside
-- it; a method of the source is a function here under its own name, with the object it changes as
-- an argument and a result.
--
-- The connection manager (src/server/connection/manager/): Connection/Info for `ConnectionInfo`;
-- Connection/Shards for a vector of locked hash maps, where a lock that a panic has poisoned
-- refuses to be taken; Connection/Manager/State for the manager's fields, its counters and the
-- slots that bound the number of connections; Users for the user index of lifecycle.rs; Lifecycle
-- for registration, removal and look-up; Ops for the methods of ops.rs that change a connection,
-- which have one shape, `update_info`; Gate for what may be sent before authentication and which
-- parser encodes it. Sending holds the bounded write queues and the fan-out that encodes a frame
-- once for each encoding, and Sending/Frames the sends and broadcasts of trait_impl.rs; Fanout and
-- Silence below it are proofs. Snapshots is what a fan-out or a clean-up works on; Batch removes
-- or refreshes many connections at once, with its proofs below it, and Connection/Shards/Batches
-- is the sorting by shard that they share. The other files of Connection/Manager are proofs: Index
-- and Reindex on the user index alone, Valid for the invariant, then one file for each group of
-- methods, and Reached for the managers that the methods lead to.
--
-- The devices (src/common/device.rs, src/server/device/manager.rs): Device/Platform,
-- Device/Strategy for the verdict of each conflict strategy, Device/Registry/Defs for the
-- registry; Buckets, Consistency and Conflicts are proofs. A hash set is a list here, and so is a
-- hash map, with each key once: the order in which the source visits them is left open by it, and
-- no theorem depends on the one chosen.
--
-- The manager and the devices share `DeviceOwner`, a tenant and a user: the manager's user index
-- and the registry's buckets have it as their key.
--
-- The negotiation (src/server/connection/negotiation.rs, with `determine_negotiation_result` and
-- `ConnectionIdentity` of src/server/transports/server_core.rs): Negotiation and Negotiation/Laws.
-- `str::to_lowercase` and the names that are registered are arguments.
--
-- The server core (src/server/transports/server_core.rs): Server/World is `ServerCore`, the world
-- it works on, and what it calls that is not its own; where the source waits, but for the kicks of
-- conflicting devices, other tasks run, so such a call is an argument that takes the whole world
-- and gives it back, and what it is relied on for is a hypothesis (`IsKeeping`, `IsQuiet`).
-- Server/Authentication (with src/server/auth/authenticator.rs) is what is made of an
-- authenticator's verdict, Server/Pipelines the shared pipelines, Server/Connect the set-up up to
-- its acknowledgement and Server/Connect/Completion the rest; the other files of Server/Connect
-- are proofs. Server/Frames is what the server reads and writes of the protocol
-- (src/common/protocol/builder.rs), and Errors and Errors/Codes are src/common/error.
--
-- The server's events (src/server/events/): Server/Observer is observer.rs, with the bounded
-- inbound queue of a connection, Server/Wrapper is event_wrapper.rs, with the handler of
-- handler.rs as an argument. What the source spawns is a task in a list, what it awaits is run at
-- once. Server/Observer/Removed, Server/Observer/Inbound and Server/Wrapper/Order are proofs.
--
-- DeviceHandler (src/server/connection/device_handler.rs) composes the device registry, the
-- connection manager and Kick: a new device's conflicts are told and removed. This runs as one
-- step here, though the source waits between its kicks.
--
-- The parser (src/common/message/parser.rs): Parser and Parser/Laws. The registries of
-- serialisers, compressors and encryptors are the interface `Codecs`, and what the parser relies
-- on, for one parser and one frame, is `IsLawful`. Parser/Registries is the program's own
-- registries (src/common/compression/, src/common/serializer/) with their fallbacks and limits, as
-- a `Codecs`; Parser/Defaults is proofs on when they are what the parser relies on.
--
-- The conversation ids (src/common/conversation.rs): Conversation and Conversation/Laws. SHA-256,
-- base 32 and ULIDs are arguments. Framing is src/transport/framing.rs, Heartbeat the heartbeat
-- configuration of src/common/config_types.rs, Heartbeat/Manager the client's heartbeat of
-- src/client/heartbeat/manager.rs, whose task is a step function on the events it waits for,
-- ProtobufDecoder the stream decoder of src/common/protobuf_decoder.rs, Pipeline the message
-- pipeline of src/common/message/pipeline.rs with the middlewares of
-- src/common/message/middleware.rs, Client the connection state of src/client/connection/state.rs,
-- Client/Session the end of a client's connection (src/client/transports/client_core.rs,
-- src/client/transports/common.rs, src/common/shutdown.rs), whose tasks are a sequence of steps in
-- any order, Kick is src/common/kick.rs.
--
-- Text is a list of Unicode scalar values; lengths that the source measures in bytes are computed
-- in UTF-8. A counter is a machine word of 64 bits and wraps around. A clock's reading is an
-- argument of the operation that reads it; an object behind an `Arc` is its identity, a number.
-- Hash values are arguments. No function here needs fuel: all are structurally recursive.
--
-- Not modelled: the methods of the manager run one at a time, as they do under the lock of a
-- shard, and nothing is said of their interleavings; the task that writes a queue out; the
-- connections of a fan-out are served in order, as each only puts bytes in a queue; the client's
-- retries and its race of transports, the timers themselves, the transports and what is generated
-- from proto/.
pub mod Base
pub mod Device
pub mod DeviceHandler
pub mod Errors
pub mod Connection
pub mod Framing
pub mod Heartbeat
pub mod Client
pub mod Conversation
pub mod Kick
pub mod Negotiation
pub mod Parser
pub mod Pipeline
pub mod ProtobufDecoder
pub mod Server
pub mod Tests

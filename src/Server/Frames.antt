-- ===== src/Server/Frames.antt =====
-- What the server reads and writes of the generated protocol (proto/frame.proto, proto/commands.proto),
-- with the builders of src/common/protocol/builder.rs. A system command stands with its format and the
-- names of its compression and its encryption; its data, and a frame's reliability, time and metadata, are
-- left out.
use flare_core.Base.{
  ℕ, Bool, false, List, [], Option, none, some, Text, text_eq, nat_beq, is_empty, if◌then◌else◌,
}
use flare_core.Connection.Info.{SerializationFormat, protobuf}
use flare_core.Kick.{SystemCommand}
use flare_core.Negotiation.Connect.{Metadata}
use flare_core.Negotiation.Settle.{ConnectAck}

pub record PayloadCommand : Type 0 where
  pub type : ℕ
  pub message_id : Text
  pub payload : List ℕ
  pub metadata : Metadata
  pub seq : ℕ

pub record NotificationCommand : Type 0 where
  pub type : ℕ
  pub title : Text
  pub content : List ℕ
  pub metadata : Metadata

pub record CustomCommand : Type 0 where
  pub name : Text
  pub body : List ℕ
  pub metadata : Metadata

pub data Command : Type 0 where
  system : SystemCommand → SerializationFormat → Text → Text → Command
  payload : PayloadCommand → Command
  notification : NotificationCommand → Command
  custom : CustomCommand → Command

pub record Frame : Type 0 where
  pub message_id : Text
  pub command : Option Command

-- The numbers of `SystemCommand.Type`.
abbrev pub connect_type : ℕ
connect_type = 1

abbrev pub connect_ack_type : ℕ
connect_ack_type = 2

abbrev pub ping_type : ℕ
ping_type = 4

abbrev pub pong_type : ℕ
pong_type = 5

abbrev pub error_type : ℕ
error_type = 6

abbrev pub event_type : ℕ
event_type = 7

abbrev pub kicked_type : ℕ
kicked_type = 10

abbrev pub negotiation_ready_type : ℕ
negotiation_ready_type = 11

abbrev system_of : Option Command → Option SystemCommand
system_of (some (system c format compression encryption)) = some c
system_of _ = none

unfoldable pub system_command : Frame → Option SystemCommand
system_command frame = system_of frame.command

abbrev is_of_type : ℕ → Option SystemCommand → Bool
is_of_type t none = false
is_of_type t (some c) = nat_beq c.type t

-- The number of a frame's system command.
abbrev pub type_of : Frame → Option ℕ
unfolding system_command
type_of frame = elim (system_command frame) [ none ↦ none | some c ↦ some c.type ]

unfoldable pub is_connect_message : Frame → Bool
unfolding system_command
is_connect_message frame = is_of_type connect_type (system_command frame)

unfoldable pub is_negotiation_ready_message : Frame → Bool
unfolding system_command
is_negotiation_ready_message frame = is_of_type negotiation_ready_type (system_command frame)

-- A frame's identifier is drawn by the caller.
unfoldable pub frame_with_system_command : Text → SystemCommand → Frame
frame_with_system_command id c = record {
  message_id = id;
  command = some (system c protobuf [] []);
}

unfoldable pub frame_with_connect_ack : Text → ConnectAck → Frame
frame_with_connect_ack id ack = record {
  message_id = id;
  command = some (
      system (record { type = connect_ack_type; message = []; metadata = ack.metadata }) ack.format
        ack.compression ack.encryption);
}

-- The drawn identifier is used if the command has none.
unfoldable pub frame_with_payload_command : Text → PayloadCommand → Frame
frame_with_payload_command id c =
    let named = if is_empty c.message_id then id else c.message_id in
    record { message_id = named; command = some (payload (record c { message_id = named })) }

unfoldable pub error_command : Text → Metadata → SystemCommand
error_command message metadata = record {
  type = error_type;
  message = message;
  metadata = metadata;
}

unfoldable pub kicked : Text → Metadata → SystemCommand
kicked reason metadata = record { type = kicked_type; message = reason; metadata = metadata }

unfoldable pub pong : SystemCommand
pong = record { type = pong_type; message = []; metadata = [] }

abbrev pub ack_type : ℕ
ack_type = 3

unfoldable pub ack_message : Text → Metadata → PayloadCommand
ack_message id metadata = record {
  type = ack_type;
  message_id = id;
  payload = [];
  metadata = metadata;
  seq = 0;
}

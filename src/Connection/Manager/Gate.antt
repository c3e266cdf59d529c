-- ===== src/Connection/Manager/Gate.antt =====
-- What may be sent to a connection, and in which encoding: the last part of manager/ops.rs. A frame is
-- generated from proto/: a type, with the number of its system command if it is one.
use flare_core.Base.{
  ℕ, true, ◌≡◌, refl, ◌∙◌, Bool, false, ◌||◌, Option, none, some, arith, Text, nat_beq,
  if◌then◌else◌, Result, ok, err, text_eq, ◌==◌,
}
use flare_core.Connection.Info.{ConnectionInfo, MessageParser, parser_new, pre_negotiation_parser}
use flare_core.Connection.Manager.State.{Hashers, ConnectionManager, close_writer}
use flare_core.Connection.Manager.Lifecycle.{remove_connection}
use flare_core.Connection.Manager.Valid.{entry_at, IsValid, IsIndexSound-elsewhere}
use flare_core.Connection.Manager.Removing.{remove_connection-IsValid, entry_at-remove_connection}
use flare_core.Parser.{Bytes, Codecs, ParseError, serialize}

pub data SendError : Type 0 where
  unverified : Text → SendError
  not_serialised : ParseError → SendError

-- CONNECT_ACK, CLOSE, PING, PONG and ERROR of proto/commands.proto.
abbrev is_open_type : Option ℕ → Bool
is_open_type none = false
is_open_type (some t) = nat_beq t 2 || nat_beq t 4 || nat_beq t 5 || nat_beq t 6 || nat_beq t 3

abbrev pub lift_send : {A : Type 0} → Result ParseError A → Result SendError A
lift_send (ok a) = ok a
lift_send (err e) = err (not_serialised e)

-- The parser for a connection when the caller names none.
abbrev pub parser_for : ConnectionInfo → MessageParser
parser_for info =
    if info.negotiation_completed
    then elim info.cached_parser [
      | some p ↦ p
      | none ↦ parser_new info.serialization_format info.compression info.encryption
    ]
    else pre_negotiation_parser

abbrev chosen : Option MessageParser → ConnectionInfo → MessageParser
chosen none info = parser_for info
chosen (some p) info = p

abbrev pub guarded : Result SendError (Unit {0}) → Result SendError Bytes → Result SendError Bytes
guarded (ok _) r = r
guarded (err e) r = err e

-- The parser with which the other side reads: that of before the negotiation until it is complete, then
-- what was negotiated.
pub data IsReader (info : ConnectionInfo) : MessageParser → Type 0 where
  waits : info.negotiation_completed ≡ false → IsReader info pre_negotiation_parser
  agreed :
      {p : MessageParser}
      → info.negotiation_completed ≡ true
      → info.cached_parser ≡ some p
      → IsReader info p
  derived :
      info.negotiation_completed ≡ true
      → info.cached_parser ≡ none
      → IsReader info (parser_new info.serialization_format info.compression info.encryption)

module _ {F : Type 0} (c : Codecs F) (system_type : F → Option ℕ) where
  unfoldable pub frame_allowed_before_auth : F → Bool
  frame_allowed_before_auth frame = is_open_type (system_type frame)

  unfoldable pub ensure_frame_allowed_for_connection :
      Text → ConnectionInfo → F → Result SendError (Unit {0})
  ensure_frame_allowed_for_connection id info frame =
      if info.authenticated || frame_allowed_before_auth frame then ok tt else err (unverified id)

  unfoldable pub serialize_frame_for_connection :
      Text → ConnectionInfo → F → Option MessageParser → Result SendError Bytes
  serialize_frame_for_connection id info frame parser =
      guarded (ensure_frame_allowed_for_connection id info frame)
        (lift_send (serialize c (chosen parser info) frame))

  -- Nothing but the frames allowed before authentication is ever encoded for a connection that is
  -- not authenticated, whatever parser is asked for.
  pub serialize_frame-unauthenticated :
      (id : Text) (info : ConnectionInfo) (frame : F) (parser : Option MessageParser)
      → info.authenticated ≡ false
      → frame_allowed_before_auth frame ≡ false
      → serialize_frame_for_connection id info frame parser ≡ err (unverified id)
  unfolding serialize_frame_for_connection ensure_frame_allowed_for_connection
  serialize_frame-unauthenticated id info frame parser a f = ground arith

-- `send_to_connection_handle`, with what `try_enqueue` answers.
unfoldable pub send_to_connection_handle :
    {E : Type 0}
    → Hashers
    → ConnectionManager
    → Text
    → ℕ
    → Result E (Unit {0})
    → ConnectionManager × Result E (Unit {0})
send_to_connection_handle h m id writer (ok _) = (m, ok tt)
send_to_connection_handle h m id writer (err e) =
    ((remove_connection h (close_writer m writer) id).0, err e)

close_writer-IsValid :
    (h : Hashers) (m : ConnectionManager) (w : ℕ) → IsValid h m → IsValid h (close_writer m w)
unfolding close_writer
close_writer-IsValid h m w v = record {
  entries = v.entries;
  index =
      IsIndexSound-elsewhere m.connection_shards m.connection_count
        (close_writer m w).closed_writers v.index;
  indexed = v.indexed;
  counted = v.counted;
  bounded = v.bounded;
}

same_entry :
    (h : Hashers) (m : ConnectionManager) (id : Text) (writer : ℕ) (j : Text)
    → (if id == j then none else entry_at h (close_writer m writer) j)
      ≡ (if id == j then none else entry_at h m j)
unfolding close_writer
same_entry h m id writer j = refl

-- A failed send keeps a valid manager valid and takes away exactly the connection of that id.
send_to_connection_handle-failed :
    {E : Type 0} (h : Hashers) (m : ConnectionManager) (id : Text) (writer : ℕ) (e : E) (j : Text)
    → IsValid h m
    → let refused : Result E (Unit {0}) = err e in
      let after = (send_to_connection_handle h m id writer refused).0 in
      IsValid h after × (entry_at h after j ≡ (if id == j then none else entry_at h m j))
unfolding send_to_connection_handle
send_to_connection_handle-failed h m id writer e j v =
    let w = close_writer-IsValid h m writer v in
    (
      remove_connection-IsValid h (close_writer m writer) id w,
      entry_at-remove_connection h (close_writer m writer) id w j ∙ same_entry h m id writer j,
    )

-- ===== src/Connection/Manager/Sending/Tests.antt =====
-- A guest and a member of a server, and what is broadcast to them.
use flare_core.Base.{
  ℕ, ◌≡◌, refl, true, false, List, [], ◌∷◌, Option, none, some, arith, length, ok, err,
}
use flare_core.Base.Chars.{codes}
use flare_core.Base.Dict.{insert}
use flare_core.Connection.Info.{
  protobuf, uncompressed, unencrypted, aes256_gcm, ConnectionInfo, info_new, parser_new, owner,
}
use flare_core.Connection.Shards.{write}
use flare_core.Connection.Manager.State.{
  Hashers, ConnectionManager, with_write_queue_limits, reserve_connection_slot,
}
use flare_core.Connection.Manager.Gate.{frame_allowed_before_auth}
use flare_core.Connection.Manager.Lifecycle.{
  add_connection_with_limit, after_reserve, insert_reserved,
}
use flare_core.Connection.Manager.Snapshots.{connection_snapshots, taken_from_all}
use flare_core.Connection.Manager.Sending.{
  Sender, Snapshot, EncodingKey, waiting, fanout_frame_to_snapshots, fanout_grouped,
}
use flare_core.Connection.Manager.Sending.Frames.{broadcast_frame}
use flare_core.Connection.Manager.Sending.Groups.{AreEncodedAsNegotiated, IsEncodedAsNegotiated}
use flare_core.Connection.Manager.Sending.Fanout.{
  regrouped, fanout_grouped-fanout_frame_to_snapshots,
}
use flare_core.Connection.Manager.Sending.Silence.{AreUnverified, waiting-broadcast_frame}
use flare_core.Negotiation.Algorithms.{is_unencrypted}
use flare_core.Parser.{Serializer, Codecs}
use mathlib.Core.List.{Perm}
use mathlib.Core.List.Permᴰ

-- Frames are numbers, and none is of a system command.
abbrev serializer : Serializer ℕ
serializer = record {
  serialize = λ n. ok (n ∷ []);
  deserialize = λ bytes. elim bytes [ [] ↦ err [] | n ∷ rest ↦ ok n ];
}

abbrev codecs : Codecs ℕ
codecs = record {
  get_serializer = λ f. some serializer;
  get_serializer_by_name = λ name. none;
  auto_detect = λ bytes. serializer ∷ [];
  compress = λ bytes a. err [];
  auto_decompress = λ bytes. ok (bytes, uncompressed);
  find_encryptor = λ name. none;
}

abbrev no_system : ℕ → Option ℕ
no_system frame = none

abbrev h : Hashers
h = record { hash_id = length; hash_owner = λ o. length o.user_id }

abbrev empty : ConnectionManager
empty = with_write_queue_limits 1 256 1024

abbrev with_guest : ConnectionManager
with_guest = (add_connection_with_limit h empty 5 100 (codes "guest") 7 8 none true 9).0

abbrev manager : ConnectionManager
manager = (add_connection_with_limit h with_guest 5 100 (codes "member") 6 9 none false 9).0

abbrev sender : Sender
sender = record { manager = manager; queues = [] }

guest_unverified : AreUnverified 8 (connection_snapshots manager)
unfolding connection_snapshots taken_from_all add_connection_with_limit after_reserve
    reserve_connection_slot with_write_queue_limits insert_reserved owner write insert info_new
guest_unverified = (λ e. refl, (λ e. absurd (omega (arith, e)), tt))

waiting-broadcast_frame_example :
    waiting (broadcast_frame h codecs no_system 12 sender 5 none) 8 ≡ waiting sender 8
unfolding frame_allowed_before_auth
waiting-broadcast_frame_example =
    waiting-broadcast_frame h codecs no_system 5 refl 8 12 sender none guest_unverified

abbrev guest : ConnectionInfo
guest = info_new 5 100 (codes "guest") true

abbrev member : ConnectionInfo
member = record (info_new 5 100 (codes "member") false) {
  negotiation_completed = true;
  serialization_format = protobuf;
  cached_parser = some (parser_new protobuf uncompressed unencrypted);
}

abbrev spy : ConnectionInfo
spy = record member { encryption = aes256_gcm }

abbrev snapshots : List Snapshot
snapshots = (codes "spy", 10, spy) ∷ (codes "guest", 8, guest) ∷ (codes "member", 9, member) ∷ []

as_negotiated : AreEncodedAsNegotiated snapshots
unfolding IsEncodedAsNegotiated is_unencrypted info_new parser_new
as_negotiated = (λ p q. absurd (ground arith), (λ p q. absurd (ground arith), (λ p q. refl, tt)))

abbrev in_turn : List (EncodingKey × List Snapshot) → List (EncodingKey × List Snapshot)
in_turn groups = groups

fanout_grouped-fanout_frame_to_snapshots_example :
    (fanout_grouped h codecs no_system in_turn sender snapshots 5
      ≡ fanout_frame_to_snapshots h codecs no_system sender
          (regrouped h codecs no_system 5 in_turn snapshots)
          5
          none)
    × Perm (regrouped h codecs no_system 5 in_turn snapshots) snapshots
fanout_grouped-fanout_frame_to_snapshots_example =
    fanout_grouped-fanout_frame_to_snapshots h codecs no_system 5 in_turn sender snapshots
      (λ groups. Permᴰ.refl groups) as_negotiated

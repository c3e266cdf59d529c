-- ===== src/Connection/Tests.antt =====
-- The connection manager on concrete inputs.
use flare_core.Base.{
  ◌≡◌, ◌<◌, refl, true, [], ◌∷◌, none, some, arith, Text, contains, Distinct, length, text_eq,
  text_beq, nat_eq, ◌==◌, if◌then◌else◌, err,
}
use flare_core.Base.Chars.{codes, trim}
use flare_core.Base.Dict.{get, insert, remove}
use flare_core.Device.Registry.Defs.{DeviceOwner, owner_new, owner_beq}
use flare_core.Device.Registry.Consistency.{is_owner}
use flare_core.Connection.Info.{
  ConnectionInfo, owner, info_new, is_timeout, protobuf, uncompressed, unencrypted, parser_new,
}
use flare_core.Connection.Shards.{index, shard, find, write, total, all_keys}
use flare_core.Connection.Manager.State.{
  Hashers, ConnectionEntry, ConnectionManager, with_write_queue_limits, reserve_connection_slot,
  release_connection_slot, close_writer, limit_exceeded, word,
}
use flare_core.Connection.Manager.Users.{
  insert_user_connection_index, remove_user_connection_index, insert_user_connection,
  remove_user_connection, leave_before, enter_after, reindex_user_connection, get_user_connections,
}
use flare_core.Connection.Manager.Lifecycle.{
  insert_reserved, after_reserve, add_connection_with_limit, remove_connection,
  registry_remove_connection, get_connection, list_connections, entry_new,
}
use flare_core.Connection.Manager.Ops.{
  Codec, completed, update_info, bind_user, mark_negotiation_confirmed,
}
use flare_core.Connection.Manager.Valid.{
  entry_at, owner_of, IsValid, with_write_queue_limits-IsValid, entry_at-with_write_queue_limits,
}
use flare_core.Connection.Manager.Adding.{add_connection-atomic, add_connection-IsValid}
use flare_core.Connection.Manager.Removing.{remove_connection-IsValid, entry_at-remove_connection}
use flare_core.Connection.Manager.Updates.{update_info-IsValid}
use flare_core.Connection.Manager.Reached.{
  Reachable, created, added, get_user_connections-Reachable,
}
use flare_core.Connection.Manager.Named.{
  AllConfirmed, contains-bind_user, update_info-AllConfirmed, add_connection-AllConfirmed,
}
use flare_core.Connection.Manager.Snapshots.{taken_from_all, timeout_connection_snapshots}
use flare_core.Connection.Manager.Scans.{timed_out}
use flare_core.Connection.Manager.Batch.{
  cleanup_timeout_connections, remove_connection_snapshots, removed_from,
  remove_user_connections_batch, left_by,
}
use flare_core.Connection.Manager.Batch.Cleanup.{cleanup_timeout_connections-IsValid}
use flare_core.Connection.Shards.Batches.{bucketed, run_buckets, run_batch}

program : Unit {0}
unfolding with_write_queue_limits reserve_connection_slot release_connection_slot close_writer
    insert_user_connection_index remove_user_connection_index insert_user_connection
    remove_user_connection leave_before enter_after reindex_user_connection get_user_connections
    insert_reserved after_reserve add_connection_with_limit remove_connection
    registry_remove_connection get_connection list_connections update_info bind_user
    mark_negotiation_confirmed index shard find write total all_keys get insert remove owner
    info_new owner_new owner_beq text_beq trim cleanup_timeout_connections
    remove_connection_snapshots removed_from remove_user_connections_batch left_by taken_from_all
    timeout_connection_snapshots bucketed run_buckets run_batch is_timeout
program = tt

abbrev h : Hashers
h = record { hash_id = length; hash_owner = λ o. length o.user_id }

abbrev start : ConnectionManager
start = with_write_queue_limits 10000 256 1024

abbrev c1 : Text
c1 = codes "c1"

abbrev c2 : Text
c2 = codes "c2"

abbrev ann : Text
ann = codes "ann"

-- One connection of a user, then a second.
abbrev one : ConnectionManager
one = (add_connection_with_limit h start 5 100 c1 7 8 (some ann) true 2).0

abbrev two : ConnectionManager
two = (add_connection_with_limit h one 6 101 c2 9 10 (some ann) true 2).0

abbrev first : ConnectionEntry
first = entry_new h 5 100 c1 7 8 (some ann) true

abbrev anns : DeviceOwner
anns = record { tenant_id = codes "0"; user_id = ann }

start-IsValid : IsValid h start
start-IsValid = with_write_queue_limits-IsValid h 10000 256 1024

one-IsValid : IsValid h one
one-IsValid =
    add_connection-IsValid h start 5 100 c1 7 8 (some ann) true 2 start-IsValid (omega arith)

two-IsValid : IsValid h two
two-IsValid = add_connection-IsValid h one 6 101 c2 9 10 (some ann) true 2 one-IsValid (omega arith)

first-entry_at : entry_at h two c1 ≡ some first
unfolding program
first-entry_at = refl

two-lists : (list_connections h two ≡ c1 ∷ c2 ∷ []) × (two.user_count ≡ 1)
unfolding program
two-lists = (refl, refl)

abbrev c3 : Text
c3 = codes "c3"

two-bounded : two.connection_count < word
unfolding program
two-bounded = omega arith

two-sharded : 0 < length two.connection_shards
unfolding program
two-sharded = omega arith

third-refused :
    (add_connection_with_limit h two 7 102 c3 11 12 none true 2).1 ≡ err (limit_exceeded 2)
unfolding program
third-refused = refl

add_connection-atomic_example : (add_connection_with_limit h two 7 102 c3 11 12 none true 2).0 ≡ two
add_connection-atomic_example =
    add_connection-atomic h two 7 102 c3 11 12 none true 2 (limit_exceeded 2) two-bounded
      two-sharded third-refused

add_connection-IsValid_example :
    IsValid h (add_connection_with_limit h two 7 102 c3 11 12 none true 5).0
add_connection-IsValid_example =
    add_connection-IsValid h two 7 102 c3 11 12 none true 5 two-IsValid (omega arith)

remove_connection-IsValid_example : IsValid h (remove_connection h two c1).0
remove_connection-IsValid_example = remove_connection-IsValid h two c1 two-IsValid

entry_at-remove_connection_example :
    entry_at h (remove_connection h two c1).0 c2 ≡ (if c1 == c2 then none else entry_at h two c2)
entry_at-remove_connection_example = entry_at-remove_connection h two c1 two-IsValid c2

-- The tenant the metadata will name.
abbrev moved : ConnectionInfo → ConnectionInfo
moved info = record info { metadata = (codes "tenant_id", codes "9") ∷ [] }

update_info-IsValid_example : IsValid h (update_info h two c1 moved).0
update_info-IsValid_example = update_info-IsValid h two c1 moved two-IsValid

two-Reachable : Reachable h two
two-Reachable =
    added 6 101 c2 9 10 (some ann) true 2 (omega arith)
      (added 5 100 c1 7 8 (some ann) true 2 (omega arith) (created 10000 256 1024))

get_user_connections-Reachable_example :
    ((id : Text)
      → contains (get_user_connections h two anns) id
        ≡ is_owner anns (owner_of (entry_at h two id)))
    × Distinct (get_user_connections h two anns)
get_user_connections-Reachable_example = get_user_connections-Reachable h two anns two-Reachable

contains-bind_user_example :
    contains (get_user_connections h (bind_user h two c1 (codes "bob")).0 anns) c1 ≡ (
      if c1 == c1
      then is_owner anns (owner (record first.info { user_id = some (codes "bob") }))
      else contains (get_user_connections h two anns) c1)
contains-bind_user_example =
    contains-bind_user h two c1 two-IsValid (codes "bob") first anns c1 first-entry_at

start-AllConfirmed : AllConfirmed h start
start-AllConfirmed id e q = ground (arith, entry_at-with_write_queue_limits h 10000 256 1024 id)

one-AllConfirmed : AllConfirmed h one
one-AllConfirmed =
    add_connection-AllConfirmed h start 5 100 c1 7 8 (some ann) true 2 start-IsValid
      start-AllConfirmed

abbrev codec : Codec
codec = record {
  device_info = none;
  serialization_format = protobuf;
  compression = uncompressed;
  encryption = unencrypted;
}

abbrev complete : ConnectionInfo → ConnectionInfo
complete = completed codec none (parser_new protobuf uncompressed unencrypted) none

-- The connection's negotiation is complete.
abbrev ready : ConnectionManager
ready = (update_info h one c1 complete).0

ready-AllConfirmed : AllConfirmed h ready
unfolding completed
ready-AllConfirmed =
    update_info-AllConfirmed h one c1 complete one-IsValid (λ i c. ground arith) one-AllConfirmed

ready-IsValid : IsValid h ready
ready-IsValid = update_info-IsValid h one c1 complete one-IsValid

cleanup_timeout_connections-IsValid_example :
    let (n, ids) = cleanup_timeout_connections h 16 two 10 in
    IsValid h n
    × Distinct ids
    × ((j : Text)
        → (contains ids j ≡ timed_out 16 10 (entry_at h two j))
          × (entry_at h n j
              ≡ (if timed_out 16 10 (entry_at h two j) then none else entry_at h two j)))
cleanup_timeout_connections-IsValid_example =
    cleanup_timeout_connections-IsValid h two two-IsValid 16 10

-- Of the two connections the older has been silent for too long.
oldest_goes : (cleanup_timeout_connections h 16 two 10).1 ≡ c1 ∷ []
unfolding program
oldest_goes = refl

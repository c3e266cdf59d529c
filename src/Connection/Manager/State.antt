-- ===== src/Connection/Manager/State.antt =====
-- The manager's state, its counters and the slots that bound the number of connections.
use flare_core.Base.{
  ℕ, ◌+◌, ◌-◌, ◌%◌, ◌^◌, List, [], ◌∷◌, Text, nat_eq, if◌then◌else◌, contains, Result, ok, err, leb,
  replicate, max, text_eq,
}
use flare_core.Device.Registry.Defs.{DeviceOwner, owner_eq}
use flare_core.Connection.Info.{ConnectionInfo}
use flare_core.Connection.Shards.{Shard, fresh}

-- `DefaultHasher`, whose values the standard library leaves open.
pub record Hashers : Type 0 where
  pub hash_id : Text → ℕ
  pub hash_owner : DeviceOwner → ℕ

-- The errors of this module with their messages. `limit_exceeded n` is `connection_failed` with the
-- message "Connection limit exceeded: n".
pub data FlareError : Type 0 where
  general_error protocol_error connection_failed authentication_failed : Text → FlareError
  limit_exceeded : ℕ → FlareError

-- A connection's handle and its write queue stand behind `Arc`s: their identities.
pub record ConnectionEntry : Type 0 where
  pub handle : ℕ
  pub writer : ℕ
  pub info : ConnectionInfo

pub record ConnectionManager : Type 0 where
  pub connection_shards : List (Shard Text ConnectionEntry)
  pub user_connection_shards : List (Shard DeviceOwner (List Text))
  pub connection_count : ℕ
  pub user_count : ℕ
  pub send_timeout : ℕ
  pub fanout_concurrency : ℕ
  pub write_queue_capacity : ℕ
  -- The write queues whose closing has begun: `mark_closed` has been called.
  pub closed_writers : List ℕ

-- What a method leaves behind and what it returns: a method may change the manager and then fail.
abbrev pub Outcome : Type 0 → Type 0
Outcome A = ConnectionManager × Result FlareError A

abbrev pub connection_shard_count : ℕ
connection_shard_count = 64

abbrev pub user_connection_shard_count : ℕ
user_connection_shard_count = 64

-- `usize` has 64 bits.
abbrev pub word : ℕ
word = 2 ^ 64

-- `AtomicUsize::fetch_add(1)` and `fetch_sub(k)` wrap around.
abbrev pub fetch_add_one : ℕ → ℕ
fetch_add_one c = (c + 1) % word

abbrev pub fetch_sub : ℕ → ℕ → ℕ
fetch_sub c k = (c + word - k) % word

unfoldable pub with_write_queue_limits : ℕ → ℕ → ℕ → ConnectionManager
with_write_queue_limits send_timeout fanout_concurrency write_queue_capacity = record {
  connection_shards = replicate connection_shard_count fresh;
  user_connection_shards = replicate user_connection_shard_count fresh;
  connection_count = 0;
  user_count = 0;
  send_timeout = send_timeout;
  fanout_concurrency = max fanout_concurrency 1;
  write_queue_capacity = max write_queue_capacity 1;
  closed_writers = [];
}

unfoldable pub with_limits : ℕ → ℕ → ConnectionManager
unfolding with_write_queue_limits
with_limits send_timeout fanout_concurrency =
    with_write_queue_limits send_timeout fanout_concurrency 1024

unfoldable pub with_send_timeout : ℕ → ConnectionManager
unfolding with_limits
with_send_timeout send_timeout = with_limits send_timeout 256

-- Ten seconds, in milliseconds.
unfoldable pub manager_new : ConnectionManager
unfolding with_send_timeout
manager_new = with_send_timeout 10000

-- The compare-and-exchange loop, run without interference.
unfoldable pub reserve_connection_slot : ConnectionManager → ℕ → Outcome (Unit {0})
reserve_connection_slot m max_connections =
    if leb max_connections m.connection_count
    then (m, err (limit_exceeded max_connections))
    else (record m { connection_count = m.connection_count + 1 }, ok tt)

unfoldable pub release_connection_slot : ConnectionManager → ConnectionManager
release_connection_slot m = record m { connection_count = fetch_sub m.connection_count 1 }

-- `close_underlying_in_background`: the queue is marked closed; the socket is closed elsewhere.
unfoldable pub close_writer : ConnectionManager → ℕ → ConnectionManager
close_writer m w = record m {
  closed_writers = if contains m.closed_writers w then m.closed_writers else w ∷ m.closed_writers;
}

-- ===== src/Heartbeat/Manager.antt =====
-- The client's heartbeat: src/client/heartbeat/manager.rs. A time is a reading of the monotonic clock
-- in nanoseconds. The loop's task is a step function on the events it waits for; a pong may come between
-- any two of them. What serializing and sending a ping gave are parts of the event: the serialized
-- ping, if there is one, and whether it was sent.
use flare_core.Base.{
  ℕ, ◌-◌, Bool, true, false, List, [], ◌∷◌, ◌++◌, Option, none, some, Text, if◌then◌else◌, ltb, leb,
  min,
}
use flare_core.Base.Chars.{codes}
use flare_core.Heartbeat.{
  HeartbeatConfig, HeartbeatAppState, config_default, with_interval, with_timeout, from_secs,
}
use flare_core.Heartbeat as Config
use flare_core.Client.{Mutex, mutex, lock_set}

abbrev pub probe_timeout : ℕ
probe_timeout = from_secs 8

abbrev pub heartbeat_timeout_reason : Text
heartbeat_timeout_reason = codes "heartbeat timeout: no PONG"

abbrev pub heartbeat_send_failed_reason : Text
heartbeat_send_failed_reason = codes "heartbeat send failed"

-- `stop_tx` is whether the channel to the task is still held.
pub record HeartbeatManager : Type 0 where
  pub config : Mutex HeartbeatConfig
  pub last_ping : Mutex (Option ℕ)
  pub last_pong : Mutex (Option ℕ)
  pub stop_tx : Bool

-- A poisoned lock reads as the default configuration.
unfoldable pub read_config : Mutex HeartbeatConfig → HeartbeatConfig
read_config c = if c.poisoned then config_default else c.value

unfoldable pub with_shared_config : Mutex HeartbeatConfig → HeartbeatManager
with_shared_config c = record {
  config = c;
  last_ping = mutex none;
  last_pong = mutex none;
  stop_tx = false;
}

unfoldable pub with_config : HeartbeatConfig → HeartbeatManager
unfolding with_shared_config
with_config c = with_shared_config (mutex c)

unfoldable pub manager_new : ℕ → ℕ → HeartbeatManager
unfolding with_config with_interval with_timeout config_default
manager_new interval timeout =
    with_config (with_timeout (with_interval config_default interval) timeout)

unfoldable pub current_config : HeartbeatManager → HeartbeatConfig
unfolding read_config
current_config m = read_config m.config

unfoldable pub effective_interval : HeartbeatManager → ℕ
unfolding current_config Config.effective_interval
effective_interval m = Config.effective_interval (current_config m)

unfoldable pub update_config :
    HeartbeatManager → (HeartbeatConfig → HeartbeatConfig) → HeartbeatManager
update_config m update = record m { config = lock_set m.config (update m.config.value) }

unfoldable pub set_app_state : HeartbeatManager → HeartbeatAppState → HeartbeatManager
unfolding update_config
set_app_state m state = update_config m (λ c. record c { app_state = state })

unfoldable pub set_nat_timeout : HeartbeatManager → Option ℕ → HeartbeatManager
unfolding update_config
set_nat_timeout m timeout = update_config m (λ c. record c { nat_timeout = timeout })

abbrev pub at_or_after : ℕ → Option ℕ → Bool
at_or_after ping none = false
at_or_after ping (some pong) = leb ping pong

unfoldable pub pong_covers_ping : Mutex (Option ℕ) → ℕ → Bool
pong_covers_ping last_pong ping =
    if last_pong.poisoned then false else at_or_after ping last_pong.value

abbrev overdue : Mutex (Option ℕ) → ℕ → ℕ → Option ℕ → Bool
overdue last_pong now timeout none = false
overdue last_pong now timeout (some ping) =
    if pong_covers_ping last_pong ping then false else ltb timeout (now - ping)

unfoldable pub unanswered_ping_timed_out : ℕ → Mutex (Option ℕ) → Mutex (Option ℕ) → ℕ → Bool
unfolding pong_covers_ping
unanswered_ping_timed_out now last_ping last_pong timeout =
    if last_ping.poisoned then false else overdue last_pong now timeout last_ping.value

-- A ping that is not answered yet keeps its time.
abbrev restarted : Mutex (Option ℕ) → ℕ → Option ℕ → Option ℕ
restarted last_pong now none = some now
restarted last_pong now (some ping) =
    if pong_covers_ping last_pong ping then some now else some ping

unfoldable pub record_ping_start_if_idle :
    ℕ → Mutex (Option ℕ) → Mutex (Option ℕ) → Mutex (Option ℕ)
unfolding pong_covers_ping
record_ping_start_if_idle now last_ping last_pong =
    lock_set last_ping (restarted last_pong now last_ping.value)

unfoldable pub record_pong : ℕ → HeartbeatManager → HeartbeatManager
record_pong now m = record m { last_pong = lock_set m.last_pong (some now) }

unfoldable pub is_timeout : ℕ → HeartbeatManager → Bool
unfolding unanswered_ping_timed_out current_config
is_timeout now m = unanswered_ping_timed_out now m.last_ping m.last_pong (current_config m).timeout

-- `elapsed`
abbrev since : ℕ → Option ℕ → Option ℕ
since now none = none
since now (some t) = some (now - t)

unfoldable pub age : ℕ → Mutex (Option ℕ) → Option ℕ
age now last = if last.poisoned then none else since now last.value

-- Where the task stands: it waits, it waits for the answer to a probe sent at a time, or it is over.
pub data Phase : Type 0 where
  waiting : Phase
  probing : ℕ → Phase
  over : Phase

pub record Heartbeat : Type 0 where
  pub manager : HeartbeatManager
  pub phase : Phase
  -- The pings that the connection took, and the reasons it was closed with.
  pub sent : List (List ℕ)
  pub closed : List Text

pub data Event : Type 0 where
  -- The sleep is over, at `now`; a ping is recorded at `later`.
  slept : (now later : ℕ) → Option (List ℕ) → Bool → Event
  -- The application is in the foreground again.
  woken : (now later : ℕ) → Option (List ℕ) → Bool → Event
  -- The window of a probe is over.
  window_over : Event
  pong : (now : ℕ) → Event
  stopped : Event

abbrev close_with : Heartbeat → Text → Heartbeat
close_with s reason = record s { phase = over; closed = s.closed ++ reason ∷ [] }

abbrev after_send : Heartbeat → List ℕ → Bool → Phase → Heartbeat
after_send s bytes true next = record s { phase = next; sent = s.sent ++ bytes ∷ [] }
after_send s bytes false next = close_with s heartbeat_send_failed_reason

abbrev with_ping : Heartbeat → Mutex (Option ℕ) → Heartbeat
with_ping s p = record s { manager = record s.manager { last_ping = p } }

abbrev beat : Heartbeat → ℕ → Option (List ℕ) → Bool → Heartbeat
beat s later none ok = s
beat s later (some bytes) ok =
    after_send
      (with_ping s (record_ping_start_if_idle later s.manager.last_ping s.manager.last_pong)) bytes
      ok waiting

abbrev probe : Heartbeat → ℕ → Option (List ℕ) → Bool → Heartbeat
probe s later none ok = s
probe s later (some bytes) ok =
    after_send (with_ping s (lock_set s.manager.last_ping (some later))) bytes ok (probing later)

unfoldable pub on_slept : Heartbeat → ℕ → ℕ → Option (List ℕ) → Bool → Heartbeat
unfolding is_timeout record_ping_start_if_idle
on_slept s now later bytes ok =
    if is_timeout now s.manager
    then close_with s heartbeat_timeout_reason
    else beat s later bytes ok

unfoldable pub on_woken : Heartbeat → ℕ → ℕ → Option (List ℕ) → Bool → Heartbeat
unfolding is_timeout
on_woken s now later bytes ok =
    if is_timeout now s.manager
    then close_with s heartbeat_timeout_reason
    else probe s later bytes ok

unfoldable pub on_window_over : Heartbeat → ℕ → Heartbeat
unfolding pong_covers_ping
on_window_over s ping =
    if pong_covers_ping s.manager.last_pong ping
    then record s { phase = waiting }
    else close_with s heartbeat_timeout_reason

-- How long a probe waits for its answer.
unfoldable pub probe_window : HeartbeatManager → ℕ
unfolding current_config
probe_window m = min (current_config m).timeout probe_timeout

-- `stop`: the task sees it when it waits next.
unfoldable pub stop : HeartbeatManager → HeartbeatManager
stop m = record m { stop_tx = false }

-- An event that the task does not wait for in its phase does nothing.
abbrev pub when_waiting : Phase → Heartbeat → Heartbeat → Heartbeat
when_waiting waiting s next = next
when_waiting (probing ping) s next = s
when_waiting over s next = s

abbrev pub when_probing : Phase → Heartbeat → (ℕ → Heartbeat) → Heartbeat
when_probing waiting s next = s
when_probing (probing ping) s next = next ping
when_probing over s next = s

unfoldable pub step : Heartbeat → Event → Heartbeat
unfolding on_slept on_woken on_window_over record_pong
step s (pong now) = record s { manager = record_pong now s.manager }
step s (slept now later bytes ok) = when_waiting s.phase s (on_slept s now later bytes ok)
step s (woken now later bytes ok) = when_waiting s.phase s (on_woken s now later bytes ok)
step s window_over = when_probing s.phase s (on_window_over s)
step s stopped = when_waiting s.phase s (record s { phase = over })

abbrev pub run : Heartbeat → List Event → Heartbeat
run s [] = s
run s (e ∷ es) = run (step s e) es

unfoldable pub start : HeartbeatManager → Heartbeat
start m = record { manager = record m { stop_tx = true }; phase = waiting; sent = []; closed = [] }

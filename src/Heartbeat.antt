-- ===== src/Heartbeat.antt =====
-- `HeartbeatConfig` of src/common/config_types.rs: how often a client sends a heartbeat. A duration is
-- its number of nanoseconds.
pub mod Manager
pub mod Answers
mod Tests
use flare_core.Base.{
  ℕ, ◌*◌, ◌-◌, ◌^◌, ◌≤◌, ◌<◌, ◌≡◌, Bool, true, false, Option, none, some, arith, ltb, nat_beq,
  if◌then◌else◌, min, max,
}
use Prim.Native.Nat.{◌/◌}

pub data HeartbeatAppState : Type 0 where
  foreground_state background_state : HeartbeatAppState

pub record HeartbeatConfig : Type 0 where
  pub interval : ℕ
  pub timeout : ℕ
  pub enabled : Bool
  pub adaptive : Bool
  pub foreground_interval : Option ℕ
  pub background_interval : Option ℕ
  pub min_interval : Option ℕ
  pub max_interval : Option ℕ
  pub nat_timeout : Option ℕ
  pub app_state : HeartbeatAppState

abbrev pub from_millis : ℕ → ℕ
from_millis n = n * 1000000

abbrev pub from_secs : ℕ → ℕ
from_secs n = n * 1000000000

-- `Duration::as_millis`
abbrev pub as_millis : ℕ → ℕ
as_millis d = d / 1000000

unfoldable pub config_default : HeartbeatConfig
config_default = record {
  interval = from_secs 30;
  timeout = from_secs 90;
  enabled = true;
  adaptive = true;
  foreground_interval = none;
  background_interval = some (from_secs 120);
  min_interval = some (from_secs 15);
  max_interval = some (from_secs 120);
  nat_timeout = none;
  app_state = foreground_state;
}

abbrev unwrap_or : Option ℕ → ℕ → ℕ
unwrap_or none d = d
unwrap_or (some x) d = x

-- `is_none_or(|min| interval < min)`: the lower bound follows a shorter interval.
abbrev lowered : Option ℕ → ℕ → Option ℕ
lowered none interval = some interval
lowered (some least) interval = if ltb interval least then some interval else some least

unfoldable pub with_interval : HeartbeatConfig → ℕ → HeartbeatConfig
with_interval c interval = record c {
  interval = interval;
  foreground_interval = some interval;
  min_interval = lowered c.min_interval interval;
}

unfoldable pub with_foreground_interval : HeartbeatConfig → ℕ → HeartbeatConfig
with_foreground_interval c interval = record c {
  foreground_interval = some interval;
  min_interval = lowered c.min_interval interval;
}

unfoldable pub with_background_interval : HeartbeatConfig → ℕ → HeartbeatConfig
with_background_interval c interval = record c { background_interval = some interval }

unfoldable pub with_interval_bounds : HeartbeatConfig → ℕ → ℕ → HeartbeatConfig
with_interval_bounds c least most = record c { min_interval = some least; max_interval = some most }

unfoldable pub with_nat_timeout : HeartbeatConfig → ℕ → HeartbeatConfig
with_nat_timeout c timeout = record c { nat_timeout = some timeout }

unfoldable pub without_nat_timeout : HeartbeatConfig → HeartbeatConfig
without_nat_timeout c = record c { nat_timeout = none }

unfoldable pub with_app_state : HeartbeatConfig → HeartbeatAppState → HeartbeatConfig
with_app_state c state = record c { app_state = state }

unfoldable pub with_adaptive : HeartbeatConfig → Bool → HeartbeatConfig
with_adaptive c adaptive = record c { adaptive = adaptive }

unfoldable pub with_timeout : HeartbeatConfig → ℕ → HeartbeatConfig
with_timeout c timeout = record c { timeout = timeout }

unfoldable pub foreground : HeartbeatConfig → HeartbeatConfig
foreground c = record c { app_state = foreground_state }

unfoldable pub background : HeartbeatConfig → HeartbeatConfig
background c = record c { app_state = background_state }

unfoldable pub disable : HeartbeatConfig → HeartbeatConfig
disable c = record c { enabled = false }

unfoldable pub positive_duration : ℕ → ℕ
positive_duration d = if nat_beq d 0 then from_millis 1 else d

-- `clamp` for bounds in order; the source's are.
abbrev pub clamp : ℕ → ℕ → ℕ → ℕ
clamp x least most = if ltb x least then least else if ltb most x then most else x

-- Seventy per cent of the timeout, in whole milliseconds; the product saturates as `u128`.
unfoldable pub nat_safe_interval : ℕ → ℕ
nat_safe_interval timeout =
    from_millis (clamp (min (as_millis timeout * 70) (2 ^ 128 - 1) / 100) 1 (2 ^ 64 - 1))

abbrev base_of : HeartbeatConfig → HeartbeatAppState → ℕ
base_of c foreground_state = unwrap_or c.foreground_interval c.interval
base_of c background_state = unwrap_or c.background_interval (from_secs 120)

abbrev nat_limited : ℕ → Option ℕ → ℕ
nat_limited base none = positive_duration base
nat_limited base (some timeout) = nat_safe_interval timeout

-- The bounds the interval is clamped to.
abbrev pub least_of : HeartbeatConfig → ℕ
least_of c = positive_duration (unwrap_or c.min_interval (min c.interval (from_secs 15)))

abbrev pub most_of : HeartbeatConfig → ℕ
most_of c = max (unwrap_or c.max_interval (from_secs 120)) (least_of c)

unfoldable pub effective_interval : HeartbeatConfig → ℕ
effective_interval c =
    if c.adaptive
    then (let base = base_of c c.app_state in
        clamp (min (positive_duration base) (nat_limited base c.nat_timeout)) (least_of c)
          (most_of c))
    else positive_duration c.interval

clamp-bounds : (x l m : ℕ) → l ≤ m → (l ≤ clamp x l m) × (clamp x l m ≤ m)
clamp-bounds x l m h = ground arith

positive_duration-positive : (d : ℕ) → 0 < positive_duration d
unfolding positive_duration
positive_duration-positive d = ground arith

-- The interval is never zero, so that the heartbeat's timer does not spin.
pub effective_interval-positive : (c : HeartbeatConfig) → 0 < effective_interval c
unfolding effective_interval
effective_interval-positive c = ground (
  arith,
  clamp-bounds
      (min (positive_duration (base_of c c.app_state))
        (nat_limited (base_of c c.app_state) c.nat_timeout))
      (least_of c) (most_of c) (omega arith),
  positive_duration-positive (unwrap_or c.min_interval (min c.interval (from_secs 15))),
  positive_duration-positive c.interval,
)

-- An adaptive interval lies between the configured bounds, the upper one raised to the lower if they
-- are out of order.
pub effective_interval-bounds :
    (c : HeartbeatConfig)
    → c.adaptive ≡ true
    → (least_of c ≤ effective_interval c) × (effective_interval c ≤ most_of c)
unfolding effective_interval
effective_interval-bounds c a = ground (
  arith,
  clamp-bounds
      (min (positive_duration (base_of c c.app_state))
        (nat_limited (base_of c c.app_state) c.nat_timeout))
      (least_of c) (most_of c) (omega arith),
)

nat_safe_interval-le : (t : ℕ) → 2000000 ≤ t → 10 * nat_safe_interval t ≤ 7 * t
unfolding nat_safe_interval
nat_safe_interval-le t h = ground arith

-- With a NAT timeout of at least two milliseconds, an adaptive interval is at most seventy per
-- cent of that timeout unless the configured lower bound is longer.
pub effective_interval-nat :
    (c : HeartbeatConfig) (t : ℕ)
    → c.adaptive ≡ true
    → c.nat_timeout ≡ some t
    → 2000000 ≤ t
    → 10 * effective_interval c ≤ max (7 * t) (10 * least_of c)
unfolding effective_interval
effective_interval-nat c t a n h = ground (
  arith,
  nat_safe_interval-le t h,
  clamp-bounds (min (positive_duration (base_of c c.app_state)) (nat_safe_interval t)) (least_of c)
      (most_of c) (omega arith),
)

-- An interval that is set is the one used in the foreground, if it is at least a millisecond, no NAT
-- timeout is known and it is within the upper bound.
pub effective_interval-with_interval :
    (c : HeartbeatConfig) (d : ℕ)
    → c.app_state ≡ foreground_state
    → c.nat_timeout ≡ none
    → from_millis 1 ≤ d
    → d ≤ unwrap_or c.max_interval (from_secs 120)
    → effective_interval (with_interval c d) ≡ d
unfolding effective_interval with_interval positive_duration
effective_interval-with_interval c d a n p h = ground arith

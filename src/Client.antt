-- ===== src/Client.antt =====
-- The client's connection state: src/client/connection/state.rs. Each field stands behind a mutex,
-- which a panic while it is held would poison.
pub mod Session
pub mod Reports
mod Tests
use flare_core.Base.{
  ℕ, ◌-◌, ◌≡◌, refl, Bool, true, false, List, [], ◌∷◌, Option, none, some, arith, is_some, not,
  ◌&&◌, ◌||◌, if◌then◌else◌,
}

pub data ConnectionState : Type 0 where
  disconnected connecting connected disconnecting failed reconnecting : ConnectionState

unfoldable pub can_send : ConnectionState → Bool
can_send connected = true
can_send _ = false

unfoldable pub can_connect : ConnectionState → Bool
can_connect disconnected = true
can_connect failed = true
can_connect _ = false

unfoldable pub is_connecting : ConnectionState → Bool
is_connecting connecting = true
is_connecting reconnecting = true
is_connecting _ = false

pub record Mutex (A : Type 0) : Type 0 where
  pub poisoned : Bool
  pub value : A

abbrev pub lock_set : {A : Type 0} → Mutex A → A → Mutex A
lock_set c v = if c.poisoned then c else record c { value = v }

pub record ConnectionStateManager : Type 0 where
  pub state : Mutex ConnectionState
  pub changed_at : Mutex ℕ
  pub connect_started_at : Mutex (Option ℕ)

abbrev pub mutex : {A : Type 0} → A → Mutex A
mutex v = record { poisoned = false; value = v }

-- The argument `now` of each operation is the monotonic clock's reading.
unfoldable pub state_new : ℕ → ConnectionStateManager
state_new now = record {
  state = mutex disconnected;
  changed_at = mutex now;
  connect_started_at = mutex none;
}

unfoldable pub set_state : ℕ → ConnectionStateManager → ConnectionState → ConnectionStateManager
set_state now m new_state = record m {
  state = lock_set m.state new_state;
  changed_at = lock_set m.changed_at now;
}

unfoldable pub get_state : ConnectionStateManager → ConnectionState
get_state m = if m.state.poisoned then disconnected else m.state.value

abbrev started : ConnectionStateManager → Option ℕ → ConnectionStateManager
started m t = record m { connect_started_at = lock_set m.connect_started_at t }

unfoldable pub start_connecting : ℕ → ConnectionStateManager → ConnectionStateManager
unfolding set_state
start_connecting now m = started (set_state now m connecting) (some now)

unfoldable pub set_connected : ℕ → ConnectionStateManager → ConnectionStateManager
unfolding set_state
set_connected now m = started (set_state now m connected) none

unfoldable pub set_disconnected : ℕ → ConnectionStateManager → ConnectionStateManager
unfolding set_state
set_disconnected now m = started (set_state now m disconnected) none

unfoldable pub set_failed : ℕ → ConnectionStateManager → ConnectionStateManager
unfolding set_state
set_failed now m = started (set_state now m failed) none

unfoldable pub set_reconnecting : ℕ → ConnectionStateManager → ConnectionStateManager
unfolding set_state
set_reconnecting now m = started (set_state now m reconnecting) (some now)

unfoldable pub state_changed_at : ℕ → ConnectionStateManager → ℕ
state_changed_at now m = if m.changed_at.poisoned then now else m.changed_at.value

abbrev elapsed : ℕ → Option ℕ → Option ℕ
elapsed now none = none
elapsed now (some start) = some (now - start)

-- `elapsed` is zero if the clock reads less than the start.
unfoldable pub connect_duration : ℕ → ConnectionStateManager → Option ℕ
connect_duration now m =
    if m.connect_started_at.poisoned then none else elapsed now m.connect_started_at.value

-- A transition: one of the five named ones, or `set_state`, with any state.
pub data Transition : Type 0 where
  starts connects disconnects fails reconnects : ℕ → Transition
  sets : ℕ → ConnectionState → Transition

abbrev pub apply : ConnectionStateManager → Transition → ConnectionStateManager
apply m (starts now) = start_connecting now m
apply m (connects now) = set_connected now m
apply m (disconnects now) = set_disconnected now m
apply m (fails now) = set_failed now m
apply m (reconnects now) = set_reconnecting now m
apply m (sets now s) = set_state now m s

abbrev pub run : ConnectionStateManager → List Transition → ConnectionStateManager
run m [] = m
run m (x ∷ xs) = run (apply m x) xs

-- The state that the last transition of a history left.
abbrev pub last_state : ConnectionState → List Transition → ConnectionState
last_state s [] = s
last_state s (starts now ∷ xs) = last_state connecting xs
last_state s (connects now ∷ xs) = last_state connected xs
last_state s (disconnects now ∷ xs) = last_state disconnected xs
last_state s (fails now ∷ xs) = last_state failed xs
last_state s (reconnects now ∷ xs) = last_state reconnecting xs
last_state s (sets now u ∷ xs) = last_state u xs

-- When the last attempt of a history began, if it was not ended by a named transition since.
abbrev pub last_start : Option ℕ → List Transition → Option ℕ
last_start t [] = t
last_start t (starts now ∷ xs) = last_start (some now) xs
last_start t (connects now ∷ xs) = last_start none xs
last_start t (disconnects now ∷ xs) = last_start none xs
last_start t (fails now ∷ xs) = last_start none xs
last_start t (reconnects now ∷ xs) = last_start (some now) xs
last_start t (sets now u ∷ xs) = last_start t xs

-- The locks are not poisoned, and hold this state and this start.
record IsAt (m : ConnectionStateManager) (s : ConnectionState) (t : Option ℕ) : Type 0 where
  state : m.state ≡ record { poisoned = false; value = s }
  start : m.connect_started_at ≡ record { poisoned = false; value = t }

set_state-IsAt :
    (now : ℕ) (m : ConnectionStateManager) (s u : ConnectionState) (t : Option ℕ)
    → IsAt m s t
    → IsAt (set_state now m u) u t
unfolding set_state
set_state-IsAt now m s u t v = record { state = ground (arith, v.state); start = v.start }

started-IsAt :
    (now : ℕ) (m : ConnectionStateManager) (s u : ConnectionState) (t n : Option ℕ)
    → IsAt m s t
    → IsAt (started (set_state now m u) n) u n
started-IsAt now m s u t n v =
    let w = set_state-IsAt now m s u t v in
    record { state = w.state; start = ground (arith, w.start) }

run-IsAt :
    (xs : List Transition) (m : ConnectionStateManager) (s : ConnectionState) (t : Option ℕ)
    → IsAt m s t
    → IsAt (run m xs) (last_state s xs) (last_start t xs)
unfolding start_connecting set_connected set_disconnected set_failed set_reconnecting
run-IsAt [] m s t v = v
run-IsAt (starts now ∷ xs) m s t v =
    run-IsAt xs _ connecting (some now) (started-IsAt now m s connecting t (some now) v)
run-IsAt (connects now ∷ xs) m s t v =
    run-IsAt xs _ connected none (started-IsAt now m s connected t none v)
run-IsAt (disconnects now ∷ xs) m s t v =
    run-IsAt xs _ disconnected none (started-IsAt now m s disconnected t none v)
run-IsAt (fails now ∷ xs) m s t v = run-IsAt xs _ failed none (started-IsAt now m s failed t none v)
run-IsAt (reconnects now ∷ xs) m s t v =
    run-IsAt xs _ reconnecting (some now) (started-IsAt now m s reconnecting t (some now) v)
run-IsAt (sets now u ∷ xs) m s t v = run-IsAt xs _ u t (set_state-IsAt now m s u t v)

-- After any history of transitions, `set_state` with any state among them, the state is the one
-- that the last transition set, and the running time is that since the last attempt or
-- reconnection began, or none if a named transition to connected, disconnected or failed came
-- after it.
pub connect_duration-run :
    (born now : ℕ) (xs : List Transition)
    → let m = run (state_new born) xs in
      (get_state m ≡ last_state disconnected xs)
      × (connect_duration now m ≡ elapsed now (last_start none xs))
unfolding get_state connect_duration state_new
connect_duration-run born now xs =
    let v =
      run-IsAt xs (state_new born) disconnected none (record { state = refl; start = refl }) in
    ground (arith, v.state, v.start)

-- No state lets the client both send and connect, nor either while an attempt lasts.
pub can_send-can_connect :
    (s : ConnectionState)
    → (can_send s && can_connect s ≡ false)
      × (is_connecting s && (can_send s || can_connect s) ≡ false)
unfolding can_send can_connect is_connecting
can_send-can_connect disconnected = (refl, refl)
can_send-can_connect connecting = (refl, refl)
can_send-can_connect connected = (refl, refl)
can_send-can_connect disconnecting = (refl, refl)
can_send-can_connect failed = (refl, refl)
can_send-can_connect reconnecting = (refl, refl)

-- ===== src/Heartbeat/Answers.antt =====
-- Proofs on src/client/heartbeat/manager.rs: when a connection is given up for want of a pong.
use flare_core.Base.{
  ℕ, ◌-◌, ◌≤◌, ◌≡◌, refl, Bool, true, false, not, ◌&&◌, ◌||◌, List, [], ◌∷◌, ◌++◌, Option, some,
  arith, Text, if◌then◌else◌, ltb, length, is_empty, map, Bool-cases, inl, inr, is_some,
}
use flare_core.Heartbeat.Manager.{
  HeartbeatManager, Heartbeat, Phase, waiting, probing, over, Event, slept, woken, window_over,
  pong, stopped, step, run, when_waiting, when_probing, start, on_slept, on_woken, on_window_over,
  is_timeout, unanswered_ping_timed_out, pong_covers_ping, at_or_after, record_ping_start_if_idle,
  record_pong, current_config, heartbeat_timeout_reason, heartbeat_send_failed_reason,
}

abbrev pub is_over : Phase → Bool
is_over over = true
is_over _ = false

-- What every step keeps: a connection is closed at most once, and not while the task goes on.
abbrev pub IsOpenOrOver : Heartbeat → Type 0
IsOpenOrOver s = (length s.closed ≤ 1) × ((is_over s.phase || is_empty s.closed) ≡ true)

close_once : (xs : List Text) (x : Text) → is_empty xs ≡ true → length (xs ++ x ∷ []) ≤ 1
close_once [] x h = omega arith
close_once (y ∷ xs) x h = cc

waiting-IsOpen : (s : Heartbeat) → IsOpenOrOver s → s.phase ≡ waiting → is_empty s.closed ≡ true
waiting-IsOpen s v e = ground arith

probing-IsOpen :
    (s : Heartbeat) (p : ℕ) → IsOpenOrOver s → s.phase ≡ probing p → is_empty s.closed ≡ true
probing-IsOpen s p v e = ground arith

on_slept-IsOpenOrOver :
    (s : Heartbeat) (now later : ℕ) (bytes : Option (List ℕ)) (ok : Bool)
    → IsOpenOrOver s
    → s.phase ≡ waiting
    → IsOpenOrOver (on_slept s now later bytes ok)
unfolding on_slept
on_slept-IsOpenOrOver s now later bytes ok v e = ground (
  arith,
  waiting-IsOpen s v e,
  close_once s.closed heartbeat_timeout_reason,
  heartbeat_send_failed_reason,
  close_once s.closed heartbeat_send_failed_reason,
)

on_woken-IsOpenOrOver :
    (s : Heartbeat) (now later : ℕ) (bytes : Option (List ℕ)) (ok : Bool)
    → IsOpenOrOver s
    → s.phase ≡ waiting
    → IsOpenOrOver (on_woken s now later bytes ok)
unfolding on_woken
on_woken-IsOpenOrOver s now later bytes ok v e = ground (
  arith,
  waiting-IsOpen s v e,
  close_once s.closed heartbeat_timeout_reason,
  heartbeat_send_failed_reason,
  close_once s.closed heartbeat_send_failed_reason,
)

when_waiting-IsOpenOrOver :
    (q : Phase) (s t : Heartbeat)
    → (q ≡ waiting → IsOpenOrOver t)
    → IsOpenOrOver s
    → IsOpenOrOver (when_waiting q s t)
when_waiting-IsOpenOrOver waiting s t f v = f refl
when_waiting-IsOpenOrOver (probing p) s t f v = v
when_waiting-IsOpenOrOver over s t f v = v

when_probing-IsOpenOrOver :
    (q : Phase) (s : Heartbeat) (t : ℕ → Heartbeat)
    → ((p : ℕ) → q ≡ probing p → IsOpenOrOver (t p))
    → IsOpenOrOver s
    → IsOpenOrOver (when_probing q s t)
when_probing-IsOpenOrOver waiting s t f v = v
when_probing-IsOpenOrOver (probing p) s t f v = f p refl
when_probing-IsOpenOrOver over s t f v = v

step-IsOpenOrOver : (s : Heartbeat) (e : Event) → IsOpenOrOver s → IsOpenOrOver (step s e)
unfolding step on_window_over record_pong
step-IsOpenOrOver s (slept now later bytes ok) v =
    when_waiting-IsOpenOrOver s.phase s _ (on_slept-IsOpenOrOver s now later bytes ok v) v
step-IsOpenOrOver s (woken now later bytes ok) v =
    when_waiting-IsOpenOrOver s.phase s _ (on_woken-IsOpenOrOver s now later bytes ok v) v
step-IsOpenOrOver s window_over v =
    when_probing-IsOpenOrOver s.phase s _
      (λ p e. ground (arith, probing-IsOpen s p v e, close_once s.closed heartbeat_timeout_reason))
      v
step-IsOpenOrOver s (pong now) v = v
step-IsOpenOrOver s stopped v = when_waiting-IsOpenOrOver s.phase s _ (λ e. (v.0, refl)) v

run-IsOpenOrOver_from : (s : Heartbeat) (es : List Event) → IsOpenOrOver s → IsOpenOrOver (run s es)
run-IsOpenOrOver_from s [] v = v
run-IsOpenOrOver_from s (e ∷ es) v = run-IsOpenOrOver_from (step s e) es (step-IsOpenOrOver s e v)

-- Whatever happens to a heartbeat that starts, it closes its connection at most once, and its task
-- is over once it has.
run-IsOpenOrOver : (m : HeartbeatManager) (es : List Event) → IsOpenOrOver (run (start m) es)
unfolding start
run-IsOpenOrOver m es = run-IsOpenOrOver_from (start m) es (omega arith, refl)

-- A ping that waits for its pong since `p`, under locks that can be taken.
pub record IsUnanswered (m : HeartbeatManager) (p : ℕ) : Type 0 where
  pub usable : (m.last_ping.poisoned || m.last_pong.poisoned) ≡ false
  pub since : m.last_ping.value ≡ some p
  pub uncovered : pong_covers_ping m.last_pong p ≡ false

-- A sleep that ends at `now`, with what came of the ping that may follow.
pub record Sleep : Type 0 where
  pub now : ℕ
  pub later : ℕ
  pub bytes : Option (List ℕ)
  pub ok : Bool

abbrev pub as_event : Sleep → Event
as_event x = slept x.now x.later x.bytes x.ok

-- The task ends at this sleep: its ping is overdue, or the next one cannot be sent.
abbrev pub ends_at : ℕ → ℕ → Sleep → Bool
ends_at p timeout x = ltb timeout (x.now - p) || (is_some x.bytes && not x.ok)

abbrev pub any_sleep : (Sleep → Bool) → List Sleep → Bool
any_sleep f [] = false
any_sleep f (x ∷ xs) = f x || any_sleep f xs

over-stays :
    (s : Heartbeat) (xs : List Sleep) → s.phase ≡ over → (run s (map as_event xs)).phase ≡ over
unfolding step
over-stays s [] e = e
over-stays s (x ∷ xs) e = over-stays (step s (as_event x)) xs (ground arith)

is_timeout-IsUnanswered :
    (m : HeartbeatManager) (p now : ℕ)
    → IsUnanswered m p
    → is_timeout now m ≡ ltb (current_config m).timeout (now - p)
unfolding is_timeout unanswered_ping_timed_out
is_timeout-IsUnanswered m p now u = ground (arith, u.usable, u.since, u.uncovered)

-- An unanswered ping keeps its time.
record_ping-kept :
    (m : HeartbeatManager) (p later : ℕ)
    → IsUnanswered m p
    → record_ping_start_if_idle later m.last_ping m.last_pong ≡ m.last_ping
unfolding record_ping_start_if_idle
record_ping-kept m p later u = ground (arith, u.usable, u.since, u.uncovered)

step-waiting :
    (s : Heartbeat) (x : Sleep)
    → s.phase ≡ waiting
    → step s (as_event x) ≡ on_slept s x.now x.later x.bytes x.ok
unfolding step
step-waiting s x e = ground arith

step-ends :
    (s : Heartbeat) (p : ℕ) (x : Sleep)
    → s.phase ≡ waiting
    → IsUnanswered s.manager p
    → ends_at p (current_config s.manager).timeout x ≡ true
    → (step s (as_event x)).phase ≡ over
unfolding on_slept
step-ends s p x e u h =
    ground (arith, step-waiting s x e, is_timeout-IsUnanswered s.manager p x.now u)

-- The task waits on, with the same ping unanswered.
record IsWaitingOn (s t : Heartbeat) (p : ℕ) : Type 0 where
  pub waits : t.phase ≡ waiting
  pub unanswered : IsUnanswered t.manager p
  pub config : t.manager.config ≡ s.manager.config

step-goes_on :
    (s : Heartbeat) (p : ℕ) (x : Sleep)
    → s.phase ≡ waiting
    → IsUnanswered s.manager p
    → ends_at p (current_config s.manager).timeout x ≡ false
    → IsWaitingOn s (step s (as_event x)) p
unfolding on_slept
step-goes_on s p x e u h = record {
  waits = ground (arith, step-waiting s x e, is_timeout-IsUnanswered s.manager p x.now u);
  unanswered = record {
    usable = ground (
      arith,
      step-waiting s x e,
      is_timeout-IsUnanswered s.manager p x.now u,
      record_ping-kept s.manager p x.later u,
      u.usable,
    );
    since = ground (
      arith,
      step-waiting s x e,
      is_timeout-IsUnanswered s.manager p x.now u,
      record_ping-kept s.manager p x.later u,
      u.since,
    );
    uncovered = ground (
      arith,
      step-waiting s x e,
      is_timeout-IsUnanswered s.manager p x.now u,
      record_ping-kept s.manager p x.later u,
      u.uncovered,
    );
  };
  config = ground (arith, step-waiting s x e, is_timeout-IsUnanswered s.manager p x.now u);
}

-- While the task waits for the pong of a ping and none comes, and it only sleeps, without a stop,
-- a probe of its own or a change of its configuration, it ends exactly if one of its sleeps is
-- over more than the timeout after that ping, or a later ping cannot be sent.
pub run-is_over :
    (s : Heartbeat) (p : ℕ) (xs : List Sleep)
    → s.phase ≡ waiting
    → IsUnanswered s.manager p
    → is_over (run s (map as_event xs)).phase
      ≡ any_sleep (ends_at p (current_config s.manager).timeout) xs
unfolding current_config
run-is_over s p [] e u = rw e refl
run-is_over s p (x ∷ xs) e u = elim (Bool-cases (ends_at p (current_config s.manager).timeout x)) [
  | inl h ↦ ground (arith, over-stays (step s (as_event x)) xs (step-ends s p x e u h))
  | inr h ↦
      let w = step-goes_on s p x e u h in
      ground (arith, w.config, run-is_over (step s (as_event x)) p xs w.waits w.unanswered)
]

-- A ping that a pong answered is never overdue, however late it is asked.
pub is_timeout-record_pong :
    (m : HeartbeatManager) (p now later : ℕ)
    → m.last_ping.value ≡ some p
    → p ≤ now
    → m.last_pong.poisoned ≡ false
    → is_timeout later (record_pong now m) ≡ false
unfolding is_timeout unanswered_ping_timed_out record_pong pong_covers_ping
is_timeout-record_pong m p now later e h q = ground arith

abbrev pub last_of : Option ℕ → List ℕ → Option ℕ
last_of t [] = t
last_of t (x ∷ xs) = last_of (some x) xs

window-verdict :
    (s : Heartbeat) (p : ℕ) (ts : List ℕ)
    → s.phase ≡ probing p
    → s.manager.last_pong.poisoned ≡ false
    → let t = run s (map pong ts ++ window_over ∷ []) in
      let answered = at_or_after p (last_of s.manager.last_pong.value ts) in
      (t.phase ≡ (if answered then waiting else over))
      × (t.closed ≡ (if answered then s.closed else s.closed ++ heartbeat_timeout_reason ∷ []))
unfolding step on_window_over pong_covers_ping record_pong
window-verdict s p [] e h = ground arith
window-verdict s p (t ∷ ts) e h = ground (arith, window-verdict (step s (pong t)) p ts)

-- If the task waits, is not timed out when it is woken for a probe, and the lock of the last pong
-- is not poisoned, a probe that was sent goes on with the connection, which is not closed, if the
-- last pong by the end of its window is not older than the probe, and otherwise ends the task and
-- closes the connection, once more than before, for the heartbeat's timeout.
pub probe-verdict :
    (s : Heartbeat) (now later : ℕ) (bytes ts : List ℕ)
    → s.phase ≡ waiting
    → is_timeout now s.manager ≡ false
    → s.manager.last_pong.poisoned ≡ false
    → let t = run s (woken now later (some bytes) true ∷ (map pong ts ++ window_over ∷ [])) in
      let answered = at_or_after later (last_of s.manager.last_pong.value ts) in
      (t.phase ≡ (if answered then waiting else over))
      × (t.closed ≡ (if answered then s.closed else s.closed ++ heartbeat_timeout_reason ∷ []))
unfolding step on_woken
probe-verdict s now later bytes ts e t h =
    ground (arith, window-verdict (step s (woken now later (some bytes) true)) later ts)

-- ===== src/Heartbeat/Tests.antt =====
-- The client's heartbeat on concrete events.
use flare_core.Base.{ℕ, ◌≡◌, refl, true, false, [], ◌∷◌, ◌++◌, some, List, map, if◌then◌else◌}
use flare_core.Heartbeat.{from_secs}
use flare_core.Heartbeat.Manager.{
  HeartbeatManager, Heartbeat, manager_new, start, step, run, waiting, over, woken, pong,
  window_over, heartbeat_timeout_reason, is_timeout, unanswered_ping_timed_out, pong_covers_ping,
  current_config, on_slept, record_ping_start_if_idle, with_config, with_shared_config, at_or_after,
}
use flare_core.Heartbeat.Answers.{
  IsUnanswered, Sleep, as_event, ends_at, any_sleep, is_over, last_of, run-is_over, probe-verdict,
}

abbrev fresh : HeartbeatManager
fresh = manager_new (from_secs 30) (from_secs 90)

abbrev ping : List ℕ
ping = 1 ∷ []

abbrev sleep : ℕ → Sleep
sleep t = record { now = from_secs t; later = from_secs t; bytes = some ping; ok = true }

-- A ping has gone out after thirty seconds.
abbrev pinged : Heartbeat
pinged = run (start fresh) (as_event (sleep 30) ∷ [])

pinged-IsUnanswered : IsUnanswered pinged.manager (from_secs 30)
unfolding start step on_slept manager_new is_timeout unanswered_ping_timed_out pong_covers_ping
    record_ping_start_if_idle with_config with_shared_config
pinged-IsUnanswered = record { usable = refl; since = refl; uncovered = refl }

pinged-waits : pinged.phase ≡ waiting
unfolding start step on_slept manager_new is_timeout unanswered_ping_timed_out with_config
    with_shared_config
pinged-waits = refl

run-is_over_example :
    is_over (run pinged (map as_event (sleep 60 ∷ sleep 90 ∷ sleep 121 ∷ []))).phase
    ≡ any_sleep
        (ends_at (from_secs 30) (current_config pinged.manager).timeout)
        (sleep 60 ∷ sleep 90 ∷ sleep 121 ∷ [])
run-is_over_example =
    run-is_over pinged (from_secs 30) (sleep 60 ∷ sleep 90 ∷ sleep 121 ∷ []) pinged-waits
      pinged-IsUnanswered

start-waits : (start fresh).phase ≡ waiting
unfolding start
start-waits = refl

start-in_time : is_timeout (from_secs 40) (start fresh).manager ≡ false
unfolding start manager_new is_timeout unanswered_ping_timed_out with_config with_shared_config
start-in_time = refl

start-usable : (start fresh).manager.last_pong.poisoned ≡ false
unfolding start manager_new with_config with_shared_config
start-usable = refl

probe-verdict_example :
    let t = run (start fresh) (
      woken (from_secs 40) (from_secs 40) (some ping) true
      ∷ (map pong (from_secs 41 ∷ []) ++ window_over ∷ [])) in
    let answered =
      at_or_after
        (from_secs 40)
        (last_of (start fresh).manager.last_pong.value (from_secs 41 ∷ [])) in
    (t.phase ≡ (if answered then waiting else over))
    × (t.closed ≡ (
        if answered
        then (start fresh).closed
        else (start fresh).closed ++ heartbeat_timeout_reason ∷ []))
probe-verdict_example =
    probe-verdict (start fresh) (from_secs 40) (from_secs 40) ping (from_secs 41 ∷ []) start-waits
      start-in_time start-usable

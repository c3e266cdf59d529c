-- ===== src/Server/Observer/Inbound.antt =====
-- Proofs on the inbound queue of src/server/events/observer.rs.
use flare_core.Base.{
  ◌≡◌, ◌≤◌, refl, sym, ap, ◌∙◌, Bool, true, false, List, [], ◌∷◌, ◌++◌, Text, leb, length,
  length-append, append_assoc, arith, Bool-cases, inl, inr, Option,
}
use mathlib.Core.List.{append-nil}
use flare_core.Parser.{Bytes}
use flare_core.Server.World.{ServerCore, Library, Environment}
use flare_core.Server.Wrapper.{Desk, EventHandler}
use flare_core.Server.Observer.{
  Adapter, ConnectionEvent, message, connected, disconnected, error, inbound_queue_capacity,
  on_event, handle_message_event,
}

-- What befalls an adapter: an event of the connection, or the turn of its consumer.
pub data Turn : Type 0 where
  event : ConnectionEvent → Turn
  consume : Turn

abbrev kept_if : Bool → Bytes → List Bytes
kept_if true bytes = []
kept_if false bytes = bytes ∷ []

module _ {S : Type 0} (l : Library) (env : Environment S) (server_core : Option ServerCore)
    (handler : EventHandler S) (id : Text) where
  -- `rx.recv()` and what follows it.
  abbrev consumed : Desk S → List Bytes → Adapter S
  unfolding handle_message_event
  consumed d [] = record { desk = d; inbound = [] }
  consumed d (bytes ∷ rest) = record {
    desk = handle_message_event l env server_core handler bytes id d;
    inbound = rest;
  }

  unfoldable pub turn : Turn → Adapter S → Adapter S
  unfolding on_event handle_message_event
  turn (event e) a = on_event id e a
  turn consume a = consumed a.desk a.inbound

  unfoldable pub run : List Turn → Adapter S → Adapter S
  unfolding turn
  run [] a = a
  run (t ∷ ts) a = run ts (turn t a)

  abbrev first : List Bytes → List Bytes
  first [] = []
  first (bytes ∷ rest) = bytes ∷ []

  abbrev accepted_at : Turn → Adapter S → List Bytes
  accepted_at (event (message bytes)) a =
      kept_if (leb inbound_queue_capacity (length a.inbound)) bytes
  accepted_at _ a = []

  abbrev handled_at : Turn → Adapter S → List Bytes
  handled_at consume a = first a.inbound
  handled_at _ a = []

  -- The frames that the queue took in, and those that were handled, in the order of time.
  unfoldable pub accepted : List Turn → Adapter S → List Bytes
  unfolding turn
  accepted [] a = []
  accepted (t ∷ ts) a = accepted_at t a ++ accepted ts (turn t a)

  unfoldable pub handled : List Turn → Adapter S → List Bytes
  unfolding turn
  handled [] a = []
  handled (t ∷ ts) a = handled_at t a ++ handled ts (turn t a)

  consumed-in_order :
      (d : Desk S) (queue : List Bytes) → queue ++ [] ≡ first queue ++ (consumed d queue).inbound
  unfolding consumed
  consumed-in_order d [] = refl
  consumed-in_order d (bytes ∷ rest) = append-nil (bytes ∷ rest)

  message-in_order :
      (bytes : Bytes) (a : Adapter S)
      → a.inbound ++ accepted_at (event (message bytes)) a ≡ (on_event id (message bytes) a).inbound
  unfolding on_event
  message-in_order bytes a = elim (Bool-cases (leb inbound_queue_capacity (length a.inbound))) [
    | inl e ↦ simp e (append-nil a.inbound)
    | inr e ↦ simp e refl
  ]

  turn-in_order :
      (t : Turn) (a : Adapter S)
      → a.inbound ++ accepted_at t a ≡ handled_at t a ++ (turn t a).inbound
  unfolding turn on_event
  turn-in_order (event connected) a = append-nil a.inbound
  turn-in_order (event (message bytes)) a = message-in_order bytes a
  turn-in_order (event (disconnected reason)) a = append-nil a.inbound
  turn-in_order (event (error text)) a = append-nil a.inbound
  turn-in_order consume a = consumed-in_order a.desk a.inbound

  consumed-bounded :
      (d : Desk S) (queue : List Bytes)
      → length queue ≤ inbound_queue_capacity
      → length (consumed d queue).inbound ≤ inbound_queue_capacity
  unfolding consumed
  consumed-bounded d [] h = h
  consumed-bounded d (bytes ∷ rest) h = omega (arith, h)

  turn-bounded :
      (t : Turn) (a : Adapter S)
      → length a.inbound ≤ inbound_queue_capacity
      → length (turn t a).inbound ≤ inbound_queue_capacity
  unfolding turn on_event
  turn-bounded (event connected) a h = h
  turn-bounded (event (message bytes)) a h =
      elim (Bool-cases (leb inbound_queue_capacity (length a.inbound))) [
        | inl e ↦ simp e h
        | inr e ↦ simp e (ground (arith, length-append a.inbound (bytes ∷ [])))
      ]
  turn-bounded (event (disconnected reason)) a h = h
  turn-bounded (event (error text)) a h = h
  turn-bounded consume a h = consumed-bounded a.desk a.inbound h

  unfoldable pub handle_all : List Bytes → Desk S → Desk S
  unfolding handle_message_event
  handle_all [] d = d
  handle_all (bytes ∷ rest) d =
      handle_all rest (handle_message_event l env server_core handler bytes id d)

  handle_all-append :
      (xs ys : List Bytes) (d : Desk S) → handle_all (xs ++ ys) d ≡ handle_all ys (handle_all xs d)
  unfolding handle_all
  handle_all-append [] ys d = refl
  handle_all-append (bytes ∷ xs) ys d =
      handle_all-append xs ys (handle_message_event l env server_core handler bytes id d)

  -- The connection is not over.
  abbrev IsOpen : Turn → Type 0
  IsOpen (event (disconnected reason)) = ⊥
  IsOpen (event (error text)) = ⊥
  IsOpen _ = Unit {0}

  abbrev pub AreOpen : List Turn → Type 0
  AreOpen [] = Unit {0}
  AreOpen (t ∷ ts) = IsOpen t × AreOpen ts

  message-desk : (bytes : Bytes) (a : Adapter S) → (on_event id (message bytes) a).desk ≡ a.desk
  unfolding on_event
  message-desk bytes a = elim (Bool-cases (leb inbound_queue_capacity (length a.inbound))) [
    | inl e ↦ simp e refl
    | inr e ↦ simp e refl
  ]

  consumed-desk :
      (d : Desk S) (queue : List Bytes) → (consumed d queue).desk ≡ handle_all (first queue) d
  unfolding consumed handle_all
  consumed-desk d [] = refl
  consumed-desk d (bytes ∷ rest) = refl

  turn-desk :
      (t : Turn) (a : Adapter S) → IsOpen t → (turn t a).desk ≡ handle_all (handled_at t a) a.desk
  unfolding turn handle_all on_event
  turn-desk (event connected) a o = refl
  turn-desk (event (message bytes)) a o = message-desk bytes a
  turn-desk (event (disconnected reason)) a o = elim o [ ]
  turn-desk (event (error text)) a o = elim o [ ]
  turn-desk consume a o = consumed-desk a.desk a.inbound

  -- Until a connection is over, its queue never holds more than 1024 frames, and the frames that
  -- it takes in are passed on one at a time, each once and in the order of their arrival: those
  -- passed on, followed by those that wait, are those that waited, followed by those taken in, and
  -- passing them on one after the other is all that the turns did.
  pub run-in_order :
      (ts : List Turn) (a : Adapter S)
      → AreOpen ts
      → length a.inbound ≤ inbound_queue_capacity
      → (a.inbound ++ accepted ts a ≡ handled ts a ++ (run ts a).inbound)
        × ((run ts a).desk ≡ handle_all (handled ts a) a.desk)
        × (length (run ts a).inbound ≤ inbound_queue_capacity)
  unfolding run accepted handled handle_all
  run-in_order [] a o h = (append-nil a.inbound, refl, h)
  run-in_order (t ∷ ts) a o h =
      let (order, desk, bound) = run-in_order ts (turn t a) o.1 (turn-bounded t a h) in
      (
        sym (append_assoc a.inbound (accepted_at t a) (accepted ts (turn t a)))
            ∙ ap (λ q. q ++ accepted ts (turn t a)) (turn-in_order t a)
            ∙ append_assoc (handled_at t a) (turn t a).inbound (accepted ts (turn t a))
            ∙ ap (λ q. handled_at t a ++ q) order
            ∙ sym
                (append_assoc (handled_at t a) (handled ts (turn t a)) (run ts (turn t a)).inbound),
        desk
            ∙ ap (handle_all (handled ts (turn t a))) (turn-desk t a o.0)
            ∙ sym (handle_all-append (handled_at t a) (handled ts (turn t a)) a.desk),
        bound,
      )

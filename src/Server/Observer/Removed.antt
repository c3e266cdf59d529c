-- ===== src/Server/Observer/Removed.antt =====
-- Proofs on src/server/events/observer.rs: what still arrives from a connection that is removed.
use flare_core.Base.{
  ℕ, ◌≡◌, refl, ap, ◌∙◌, subst, Bool, true, false, not, ◌&&◌, List, [], ◌∷◌, Option, none, some,
  arith, Text, text_eq, eq_refl, if◌then◌else◌, Result, ok, err, Bool-cases, inl, inr,
}
use flare_core.Connection.Info.{ConnectionInfo, pre_negotiation_parser}
use flare_core.Connection.Manager.Lifecycle.{get_connection, remove_connection}
use flare_core.Connection.Manager.Listing.{get_connection-entry_at, handle_and_info}
use flare_core.Connection.Manager.Named.{update_connection_active-IsValid}
use flare_core.Connection.Manager.Ops.{update_connection_active}
use flare_core.Connection.Manager.Removing.{remove_connection-IsValid, entry_at-remove_connection}
use flare_core.Connection.Manager.Valid.{entry_at}
use flare_core.Connection.Manager.State.{Hashers, ConnectionManager}
use flare_core.Errors.{FlareError}
use flare_core.Parser.{Bytes, ParseError, parse}
use flare_core.Server.Frames.{Frame, is_connect_message}
use flare_core.Server.World.{World, ServerCore, Library, Environment, connections, with_connections}
use flare_core.Server.Connect.Completion.{handle_connect_complete}
use flare_core.Server.Connect.Sound.{IsKeeping, handle_connect_complete-IsSound}
use flare_core.Server.Connect.Tables.{IsSound}
use flare_core.Server.Wrapper.{Desk, EventHandler, with_world, handle_frame}
use flare_core.Server.Observer.{
  is_frame, is_none, is_pre_negotiation_connect, found, set_up, handle_connect_message,
  parsed_early, handle_pre_negotiation_message, refreshed, by_state, connect_with,
  handle_negotiated_message, handle_message_event,
}

update_connection_active-IsAbsent :
    (h : Hashers) (m : ConnectionManager) (now : ℕ) (id : Text)
    → get_connection h m id ≡ none
    → (update_connection_active h m now id).0 ≡ m
unfolding update_connection_active get_connection
update_connection_active-IsAbsent h m now id q = ground (arith, q)

test_passes : (a : Bool) {b : Bool} → b ≡ true → (a && not b) ≡ false
test_passes a c = ground (arith, c)

-- What happens on the desk: a frame is taken from the queue, or something else runs.
pub data Happening (S : Type 0) : Type 0 where
  frame : Bytes → Happening S
  other : (Desk S → Desk S) → Happening S

abbrev pub others : {S : Type 0} → List (Happening S) → List (Happening S)
others [] = []
others (frame bytes ∷ hs) = others hs
others (other f ∷ hs) = other f ∷ others hs

module _ {S : Type 0} (l : Library) (env : Environment S) (server_core : Option ServerCore)
    (handler : EventHandler S) (id : Text) where
  abbrev IsAbsent : Desk S → Type 0
  IsAbsent d = found l env server_core handler id d ≡ none

  unfoldable pub happened : List (Happening S) → Desk S → Desk S
  unfolding handle_message_event
  happened [] d = d
  happened (frame bytes ∷ hs) d =
      happened hs (handle_message_event l env server_core handler bytes id d)
  happened (other f ∷ hs) d = happened hs (f d)

  -- Nothing else registers the connection again.
  abbrev pub AreSparing : List (Happening S) → Type 0
  AreSparing [] = Unit {0}
  AreSparing (frame bytes ∷ hs) = AreSparing hs
  AreSparing (other f ∷ hs) = ((d : Desk S) → IsAbsent d → IsAbsent (f d)) × AreSparing hs

  refreshed-IsAbsent : (d : Desk S) → IsAbsent d → refreshed l env server_core handler id d ≡ d
  unfolding get_connection found refreshed
  refreshed-IsAbsent d q =
      ap (λ m. with_world d (with_connections d.world m))
        (update_connection_active-IsAbsent l.hashers (connections d.world) (handler.now d.world) id
          q)

  parsed_early-IsAbsent :
      (d : Desk S) (r : Result ParseError Frame)
      → IsAbsent d
      → is_frame is_connect_message r ≡ true
      → parsed_early l env server_core handler r id d ≡ d
  unfolding handle_connect_message parsed_early
  parsed_early-IsAbsent d (err e) q c = refl
  parsed_early-IsAbsent d (ok f) q c = rw c (rw q refl)

  handle_message_event-IsAbsent :
      (d : Desk S) (bytes : Bytes)
      → IsAbsent d
      → handle_message_event l env server_core handler bytes id d ≡ d
  unfolding handle_message_event is_pre_negotiation_connect handle_pre_negotiation_message
  handle_message_event-IsAbsent d bytes q =
      elim (Bool-cases (is_pre_negotiation_connect l env server_core handler bytes)) [
        | inr c ↦ rw (q, c) refl
        | inl c ↦
            rw (q, c)
              (ap
                  (λ t.
                    by_state l env server_core handler (found l env server_core handler id t) bytes
                      id t)
                  (refreshed-IsAbsent d q)
                ∙ ap (λ o. by_state l env server_core handler o bytes id d) q
                ∙ parsed_early-IsAbsent d (parse l.codecs pre_negotiation_parser bytes) q c)
      ]

  -- While a connection is removed, its frames change nothing.
  happened-IsAbsent :
      (hs : List (Happening S)) (d : Desk S)
      → AreSparing hs
      → IsAbsent d
      → happened hs d ≡ happened (others hs) d
  unfolding happened
  happened-IsAbsent [] d s q = refl
  happened-IsAbsent (frame bytes ∷ hs) d s q =
      ap (happened hs) (handle_message_event-IsAbsent d bytes q) ∙ happened-IsAbsent hs d s q
  happened-IsAbsent (other f ∷ hs) d s q = happened-IsAbsent hs (f d) s.1 (s.0 d q)

  removed-IsAbsent :
      (d : Desk S) (w : World S)
      → IsSound l.hashers w
      → IsAbsent
          (with_world d (with_connections w (remove_connection l.hashers (connections w) id).0))
  unfolding found
  removed-IsAbsent d w v =
      get_connection-entry_at l.hashers (remove_connection l.hashers (connections w) id).0
        (remove_connection-IsValid l.hashers (connections w) id v.valid) id
      ∙ ap handle_and_info (
          entry_at-remove_connection l.hashers (connections w) id v.valid id
          ∙ ap (λ b. if b then none else entry_at l.hashers (connections w) id) (eq_refl id))

  set_up-refused :
      (d : Desk S) (r : World S × Result FlareError (Unit {0})) (w : World S) (e : FlareError)
      → r ≡ (w, err e)
      → set_up l env server_core handler id d r
        ≡ with_world d (with_connections w (remove_connection l.hashers (connections w) id).0)
  unfolding set_up
  set_up-refused d r w e q = rw q refl

  module _ (core : ServerCore) (k : IsKeeping l.hashers env) where
    -- A CONNECT whose set-up fails takes its connection out, if what the set-up waits for keeps
    -- the server's tables sound, and none of the frames that come after it changes anything,
    -- whatever else runs in between, for as long as nothing registers the connection again.
    pub happened-refused :
        (hs : List (Happening S)) (d : Desk S) (bytes : Bytes) (f : Frame) (handle : ℕ)
        (info : ConnectionInfo) (w : World S) (e : FlareError)
        → let t = refreshed l env server_core handler id d in
          server_core ≡ some core
          → IsSound l.hashers d.world
          → parse l.codecs pre_negotiation_parser bytes ≡ ok f
          → is_connect_message f ≡ true
          → found l env server_core handler id t ≡ some (handle, info)
          → info.negotiation_completed ≡ false
          → handle_connect_complete l env core f id handle t.world ≡ (w, err e)
          → AreSparing hs
          → let left =
              with_world d
                (with_connections w (remove_connection l.hashers (connections w) id).0) in
            IsAbsent left × (happened (frame bytes ∷ hs) d ≡ happened (others hs) left)
    unfolding happened handle_message_event is_pre_negotiation_connect
        handle_pre_negotiation_message handle_connect_message refreshed
    happened-refused hs d bytes f handle info w e on v p c q n done s =
        let t = refreshed l env server_core handler id d in
        let sound_before : IsSound l.hashers t.world = record {
          valid =
              update_connection_active-IsValid l.hashers (connections d.world) id v.valid
                (handler.now d.world);
          consistent = v.consistent;
        } in
        let sound =
          subst (λ r. IsSound l.hashers r.0) done
            (handle_connect_complete-IsSound l env core k f id handle t.world sound_before) in
        let gone = removed-IsAbsent d w sound in
        let arrives = by_state l env server_core handler in
        let sets_up = connect_with l env server_core handler in
        (
          gone,
          ap (happened hs) (
                ap (λ b. if b then d else arrives (found l env server_core handler id t) bytes id t)
                  (test_passes (is_none (found l env server_core handler id d)) (rw p c))
                ∙ ap (λ o. arrives o bytes id t) q
                ∙ ap
                    (λ b.
                      if b
                      then handle_negotiated_message l env server_core handler bytes info id t
                      else handle_pre_negotiation_message l env server_core handler bytes id t)
                    n
                ∙ ap (λ r. parsed_early l env server_core handler r id t) p
                ∙ ap
                    (λ b.
                      if b
                      then handle_connect_message l env server_core handler f id t
                      else handle_frame l env handler f id t)
                    c
                ∙ ap (λ o. sets_up o server_core f id t) q
                ∙ ap (λ o. sets_up (some (handle, info)) o f id t) on
                ∙ set_up-refused t _ w e done)
              ∙ happened-IsAbsent hs _ s gone,
        )

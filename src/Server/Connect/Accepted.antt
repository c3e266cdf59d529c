-- ===== src/Server/Connect/Accepted.antt =====
-- Proofs on src/server/transports/server_core.rs: how a connection stands that is accepted, where nothing
-- else touches the server's tables meanwhile.
use flare_core.Base.{
  ℕ, ◌≡◌, refl, sym, ap, ◌∙◌, true, Option, some, arith, Text, text_eq, Result, ok, err,
  Option-cases, inl, inr, subst,
}
use flare_core.Connection.Info.{
  ConnectionInfo, MessageParser, set_authenticated, or_keep, parser_new,
}
use flare_core.Connection.Manager.State.{ConnectionEntry}
use flare_core.Connection.Manager.Ops.{Codec, negotiated, completed}
use flare_core.Connection.Manager.Valid.{entry_at}
use flare_core.Errors.{FlareError}
use flare_core.Negotiation.Connect.{parse_connect_message}
use flare_core.Negotiation.Settle.{ConnectionIdentity}
use flare_core.Parser.{Bytes, ParseError}
use flare_core.Server.Frames.{Frame, system_command}
use flare_core.Server.Pipelines.{key_eq}
use flare_core.Server.World.{World, ServerCore, Library, Environment}
use flare_core.Server.Connect.{
  authenticate_connection, conflicts_of, registered, negotiated_with, settled_parser,
  owner_of_identity, handle_connect_message,
}
use flare_core.Server.Connect.Completion.{
  finalize_negotiation_after_ack, noticed, notice, acknowledged, send_ack, complete,
  handle_connect_complete,
}
use flare_core.Server.Connect.Tables.{
  IsSound, moved-IsSound, registered-IsSound, conflicts_of-IsSound,
}
use flare_core.Server.Connect.Entries.{
  IsQuiet, or_keep_again, entry_in, registered-entry, conflicts_of-spares, finalized-entry,
}

-- A connection of `entry` before its set-up is let in, for the user of the identity, and encoded for by `p`.
pub record IsAccepted (i : ConnectionIdentity) (p : MessageParser) (before after : ConnectionInfo)
    : Type 0 where
  pub let_in : after.authenticated ≡ true
  pub negotiated : after.negotiation_completed ≡ true
  pub encoded : after.cached_parser ≡ some p
  pub user : after.user_id ≡ or_keep i.user_id before.user_id

module _ {S : Type 0} (l : Library) (env : Environment S) (core : ServerCore) where
  noticed-server :
      (conn : ℕ) (p : MessageParser) (r : World S × Result FlareError (Unit {0})) (t : World S)
      → noticed l env core conn p r ≡ (t, ok tt)
      → t.server ≡ r.0.server
  unfolding noticed
  noticed-server conn p (w, ok u) t h = sym (ap (λ x. x.0.server) h)
  noticed-server conn p (w, err e) t h = absurd (ground arith)

  notice-server :
      (id : Text) (conn : ℕ) (p : MessageParser) (w t : World S)
      → IsQuiet env
      → notice l env core env.on_connect id conn p w ≡ (t, ok tt)
      → t.server ≡ w.server
  unfolding notice noticed
  notice-server id conn p w t quiet h = elim (Option-cases env.on_connect) [
    | inl q ↦ absurd (ground arith)
    | inr (f, q) ↦ noticed-server conn p (f id w) t (rw q at h) ∙ quiet.connects f id w q
  ]

  -- The entry of a connection, where the server's tables are the same.
  moved_entry :
      (w t : World S) (id : Text) (o : Option ConnectionEntry)
      → t.server ≡ w.server
      → entry_in l env core w id ≡ o
      → entry_in l env core t id ≡ o
  moved_entry w t id o same q = subst (λ s. entry_at l.hashers s.connections id ≡ o) (sym same) q

  abbrev IsCompleted : MessageParser → ConnectionEntry → World S → Text → Type 0
  IsCompleted p e t id =
      (c : Codec) × (pipeline : Option ℕ) × (entry_in l env core t id
        ≡ some (record e {
          info =
              completed c e.info.user_id
                (parser_new p.default_format p.default_compression p.default_encryption) pipeline
                e.info;
        }))

  acknowledged-entry :
      (id : Text) (conn : ℕ) (p : MessageParser) (r : World S × Result FlareError (Unit {0}))
      (t : World S) (e : ConnectionEntry)
      → IsQuiet env
      → IsSound l.hashers r.0
      → entry_in l env core r.0 id ≡ some e
      → acknowledged l env core id conn p r ≡ (t, ok tt)
      → IsCompleted p e t id
  unfolding acknowledged
  acknowledged-entry id conn p (w, err x) t e quiet v q h = absurd (ground arith)
  acknowledged-entry id conn p (w, ok u) t e quiet v q h =
      let (c, pipeline, at) = finalized-entry l env core id p w e quiet v q in
      let same =
        notice-server id conn p (finalize_negotiation_after_ack l env core id p w) t quiet h in
      (c, pipeline, moved_entry (finalize_negotiation_after_ack l env core id p w) t id _ same at)

  send_ack-entry :
      (id : Text) (conn : ℕ) (p : MessageParser) (r : Result ParseError Bytes) (w t : World S)
      (e : ConnectionEntry)
      → IsQuiet env
      → IsSound l.hashers w
      → entry_in l env core w id ≡ some e
      → send_ack l env core id conn p r w ≡ (t, ok tt)
      → IsCompleted p e t id
  unfolding send_ack
  send_ack-entry id conn p (err x) w t e quiet v q h = absurd (ground arith)
  send_ack-entry id conn p (ok bytes) w t e quiet v q h =
      let same = quiet.sends conn bytes w in
      acknowledged-entry id conn p (env.send conn bytes w) t e quiet
        (moved-IsSound l.hashers w (env.send conn bytes w).0 same v)
        (moved_entry w (env.send conn bytes w).0 id (some e) same q) h

  -- Where nothing else touches the server's tables meanwhile, a registered connection whose set-up
  -- succeeds is still registered, is authenticated, for the user of its identity, and has its
  -- negotiation complete with the settled encoding in use.
  pub handle_connect_complete-IsAccepted :
      (frame : Frame) (id : Text) (conn : ℕ) (w v t : World S) (i : ConnectionIdentity)
      (e : ConnectionEntry)
      → IsQuiet env
      → IsSound l.hashers v
      → authenticate_connection l env core frame id
          (parse_connect_message l.to_lowercase (system_command frame))
          w
        ≡ (v, ok i)
      → entry_in l env core v id ≡ some e
      → handle_connect_complete l env core frame id conn w ≡ (t, ok tt)
      → (after : ConnectionEntry) × (entry_in l env core t id ≡ some after)
        × IsAccepted i
            (settled_parser l env core
              (parse_connect_message l.to_lowercase (system_command frame)))
            e.info
            after.info
  unfolding handle_connect_complete handle_connect_message complete negotiated_with parser_new
      completed set_authenticated negotiated
  handle_connect_complete-IsAccepted frame id conn w v t i e quiet sound h q done =
      let n = parse_connect_message l.to_lowercase (system_command frame) in
      let (at, found) = registered-entry l env core id n i v e sound q in
      let s1 = registered l env core id n i v in
      let s2 = env.sleep s1 in
      let s3 = (conflicts_of l env core id n.device_info (owner_of_identity i) s2).0 in
      let sound2 =
        moved-IsSound l.hashers s1 s2 (quiet.sleeps s1)
          (registered-IsSound l env core id n i v sound) in
      let at3 =
        conflicts_of-spares l env core id n.device_info (owner_of_identity i) s2 sound2
        ∙ moved_entry s1 s2 id _ (quiet.sleeps s1) found in
      let (c, pipeline, last) =
        send_ack-entry id conn (settled_parser l env core n) _ s3 t _ quiet
          (conflicts_of-IsSound l env core id n.device_info (owner_of_identity i) s2 sound2) at3
          (rw h at done) in
      (
        _,
        last,
        record {
          let_in = refl;
          negotiated = refl;
          encoded = refl;
          user = or_keep_again i.user_id e.info.user_id;
        },
      )

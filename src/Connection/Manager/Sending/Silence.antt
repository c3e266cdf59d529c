-- ===== src/Connection/Manager/Sending/Silence.antt =====
-- Proofs that an unverified connection hears no broadcast of manager/trait_impl.rs.
use flare_core.Base.{
  ℕ, ◌≡◌, refl, ◌∙◌, Bool, true, false, List, [], ◌∷◌, Option, none, some, Text, nat_eq,
  nat_beq_iff, ◌==◌, if◌then◌else◌, Result, ok, err, leb, length, contains, ◌++◌, Bool-cases, inl,
  inr,
}
use flare_core.Base.Dict.{Dict, insert, get-insert}
use flare_core.Connection.Info.{MessageParser}
use flare_core.Connection.Manager.State.{Hashers, ConnectionEntry}
use flare_core.Connection.Shards.{Shard}
use flare_core.Connection.Manager.Gate.{
  SendError, serialize_frame_for_connection, frame_allowed_before_auth,
  serialize_frame-unauthenticated, unverified,
}
use flare_core.Connection.Manager.Snapshots.{
  connection_auth_snapshots, connection_snapshots, taken_from, taken_from_all, every, with_info,
  with_auth,
}
use flare_core.Connection.Manager.Sending.{
  Sender, Snapshot, waiting, try_enqueue, deliver, deliver_encoded, fanout_frame_to_snapshots,
  refreshed_with,
}
use flare_core.Connection.Manager.Sending.Frames.{
  AuthSnapshot, allowed_for, fanout_serialized_frame_to_auth_snapshots, once_encoded,
  send_frame_to_snapshots, broadcast_frame,
}
use flare_core.Parser.{Bytes, Codecs, ParseError, serialize}

-- Whoever writes there is not verified.
abbrev pub AreUnverified : ℕ → List Snapshot → Type 0
AreUnverified w [] = Unit {0}
AreUnverified w ((id, writer, info) ∷ rest) =
    (writer ≡ w → info.authenticated ≡ false) × AreUnverified w rest

abbrev AreRefused : ℕ → List AuthSnapshot → Type 0
AreRefused w [] = Unit {0}
AreRefused w ((id, writer, authenticated) ∷ rest) =
    (writer ≡ w → authenticated ≡ false) × AreRefused w rest

waiting-insert :
    (s : Sender) (writer w : ℕ) (bytes : List Bytes)
    → (writer == w) ≡ false
    → waiting (record s { queues = insert writer bytes s.queues }) w ≡ waiting s w
unfolding waiting
waiting-insert s writer w bytes n = rw (get-insert writer w bytes s.queues, n) refl

waiting-deliver_elsewhere :
    (h : Hashers) (s : Sender) (id : Text) (writer w : ℕ) (bytes : Bytes)
    → (writer == w) ≡ false
    → waiting (deliver h s id writer bytes).0 w ≡ waiting s w
unfolding deliver try_enqueue waiting
waiting-deliver_elsewhere h s id writer w bytes n =
    elim (Bool-cases (contains s.manager.closed_writers writer)) [
      | inl e ↦ simp e refl
      | inr e ↦ elim (Bool-cases (leb s.manager.write_queue_capacity (length (waiting s writer)))) [
        | inl f ↦ simp (e, f) refl
        | inr f ↦ simp (e, f) (waiting-insert s writer w (waiting s writer ++ bytes ∷ []) n)
      ]
    ]

waiting-delivered_elsewhere :
    (h : Hashers) (s : Sender) (id : Text) (writer w : ℕ) (r : Result SendError Bytes)
    → (writer == w) ≡ false
    → waiting (deliver_encoded h s id writer r).0 w ≡ waiting s w
unfolding deliver_encoded
waiting-delivered_elsewhere h s id writer w (ok bytes) n =
    waiting-deliver_elsewhere h s id writer w bytes n
waiting-delivered_elsewhere h s id writer w (err e) n = refl

waiting-delivered :
    (h : Hashers) (s : Sender) (id : Text) (writer w : ℕ) (r : Result SendError Bytes)
    → (writer ≡ w → (e : SendError) × (r ≡ err e))
    → waiting (deliver_encoded h s id writer r).0 w ≡ waiting s w
unfolding deliver_encoded
waiting-delivered h s id writer w r n = elim (Bool-cases (writer == w)) [
  | inl e ↦ rw ((n ((nat_beq_iff writer w).0 e)).1) refl
  | inr e ↦ waiting-delivered_elsewhere h s id writer w r e
]

AreUnverified-append :
    (w : ℕ) (xs ys : List Snapshot)
    → AreUnverified w (xs ++ ys)
    → AreUnverified w xs × AreUnverified w ys
AreUnverified-append w [] ys a = (tt, a)
AreUnverified-append w ((id, writer, info) ∷ xs) ys a =
    let rest = AreUnverified-append w xs ys a.1 in ((a.0, rest.0), rest.1)

AreRefused-append :
    (w : ℕ) (xs ys : List AuthSnapshot)
    → AreRefused w xs
    → AreRefused w ys
    → AreRefused w (xs ++ ys)
AreRefused-append w [] ys a b = b
AreRefused-append w ((id, writer, authenticated) ∷ xs) ys a b =
    (a.0, AreRefused-append w xs ys a.1 b)

taken_from-AreRefused :
    (w : ℕ) (entries : Dict Text ConnectionEntry)
    → AreUnverified w (taken_from every with_info entries)
    → AreRefused w (taken_from every with_auth entries)
taken_from-AreRefused w [] a = tt
taken_from-AreRefused w ((id, e) ∷ rest) a = (a.0, taken_from-AreRefused w rest a.1)

healthy-AreRefused :
    (w : ℕ) (poisoned : Bool) (entries : Dict Text ConnectionEntry)
    → AreUnverified w (if poisoned then [] else taken_from every with_info entries)
    → AreRefused w (if poisoned then [] else taken_from every with_auth entries)
healthy-AreRefused w true entries a = tt
healthy-AreRefused w false entries a = taken_from-AreRefused w entries a

taken_from_all-AreRefused :
    (w : ℕ) (shards : List (Shard Text ConnectionEntry))
    → AreUnverified w (taken_from_all every with_info shards)
    → AreRefused w (taken_from_all every with_auth shards)
unfolding taken_from_all
taken_from_all-AreRefused w [] a = tt
taken_from_all-AreRefused w (x ∷ shards) a =
    let split =
      AreUnverified-append w (if x.poisoned then [] else taken_from every with_info x.entries)
        (taken_from_all every with_info shards) a in
    AreRefused-append w (if x.poisoned then [] else taken_from every with_auth x.entries)
      (taken_from_all every with_auth shards) (healthy-AreRefused w x.poisoned x.entries split.0)
      (taken_from_all-AreRefused w shards split.1)

module _ {F : Type 0} (h : Hashers) (c : Codecs F) (system_type : F → Option ℕ) (frame : F)
    (guarded : frame_allowed_before_auth c system_type frame ≡ false) (w : ℕ) where
  waiting-fanout_frame :
      (s : Sender) (xs : List Snapshot) (parser : Option MessageParser)
      → AreUnverified w xs
      → waiting (fanout_frame_to_snapshots h c system_type s xs frame parser).0 w ≡ waiting s w
  unfolding fanout_frame_to_snapshots
  waiting-fanout_frame s [] parser a = refl
  waiting-fanout_frame s ((id, writer, info) ∷ xs) parser a =
      let encoded = serialize_frame_for_connection c system_type id info frame parser in
      waiting-fanout_frame (deliver_encoded h s id writer encoded).0 xs parser a.1
      ∙ waiting-delivered h s id writer w encoded (λ e. (
        unverified id,
        serialize_frame-unauthenticated c system_type id info frame parser (a.0 e) guarded,
      ))

  waiting-fanout_serialized :
      (s : Sender) (xs : List AuthSnapshot) (bytes : Bytes)
      → AreRefused w xs
      → waiting (fanout_serialized_frame_to_auth_snapshots h c system_type s xs frame bytes).0 w
        ≡ waiting s w
  unfolding fanout_serialized_frame_to_auth_snapshots
  waiting-fanout_serialized s [] bytes a = refl
  waiting-fanout_serialized s ((id, writer, authenticated) ∷ xs) bytes a =
      let encoded = allowed_for h c system_type id authenticated frame bytes in
      waiting-fanout_serialized (deliver_encoded h s id writer encoded).0 xs bytes a.1
      ∙ waiting-delivered h s id writer w encoded (λ e. (unverified id, simp (a.0 e, guarded) refl))

  waiting-refreshed :
      (now : ℕ) (r : Sender × List Text)
      → waiting (refreshed_with h c system_type now r) w ≡ waiting r.0 w
  unfolding waiting refreshed_with
  waiting-refreshed now r = refl

  waiting-once_encoded :
      (now : ℕ) (s : Sender) (xs : List AuthSnapshot) (r : Result ParseError Bytes)
      → AreRefused w xs
      → waiting (once_encoded h c system_type now s xs frame r) w ≡ waiting s w
  unfolding refreshed_with waiting fanout_serialized_frame_to_auth_snapshots
  waiting-once_encoded now s xs (ok bytes) a =
      waiting-refreshed now
        (fanout_serialized_frame_to_auth_snapshots h c system_type s xs frame bytes)
      ∙ waiting-fanout_serialized s xs bytes a
  waiting-once_encoded now s xs (err e) a = refl

  waiting-send_frame_to_snapshots :
      (now : ℕ) (s : Sender) (auth : List AuthSnapshot) (xs : List Snapshot)
      (parser : Option MessageParser)
      → AreRefused w auth
      → AreUnverified w xs
      → waiting (send_frame_to_snapshots h c system_type now s auth xs frame parser) w ≡ waiting s w
  unfolding send_frame_to_snapshots
  waiting-send_frame_to_snapshots now s auth xs (some parser) a b =
      waiting-once_encoded now s auth (serialize c parser frame) a
  waiting-send_frame_to_snapshots now s auth xs none a b =
      waiting-refreshed now (fanout_frame_to_snapshots h c system_type s xs frame none)
      ∙ waiting-fanout_frame s xs none b

  -- A frame that is not open to the unverified changes nothing in a write queue whose connections
  -- are not authenticated when it is broadcast, with a parser or without one.
  pub waiting-broadcast_frame :
      (now : ℕ) (s : Sender) (parser : Option MessageParser)
      → AreUnverified w (connection_snapshots s.manager)
      → waiting (broadcast_frame h c system_type now s frame parser) w ≡ waiting s w
  unfolding broadcast_frame connection_snapshots connection_auth_snapshots
  waiting-broadcast_frame now s parser a =
      waiting-send_frame_to_snapshots now s (connection_auth_snapshots s.manager)
        (connection_snapshots s.manager) parser
        (taken_from_all-AreRefused w s.manager.connection_shards a) a

-- ===== src/Connection/Manager/Sending/Fanout.antt =====
-- Proofs on the fan-out of manager/ops.rs that encodes a frame once for each encoding.
use flare_core.Base.{
  ℕ, ◌≡◌, refl, sym, ap, ◌∙◌, subst, Bool, true, false, List, [], ◌∷◌, ◌++◌, Option, none, Text,
  Result, ok, err, pair_eq,
}
use flare_core.Connection.Manager.State.{Hashers}
use flare_core.Connection.Manager.Gate.{
  SendError, serialize_frame_for_connection, ensure_frame_allowed_for_connection, guarded,
  lift_send,
}
use flare_core.Connection.Manager.Sending.{
  Sender, Snapshot, EncodingKey, allowed_bytes, deliver_encoded, fanout_frame_to_snapshots,
  fanout_bytes, fanout_encoded, group_snapshots, fanout_groups, fanout_grouped, and_id,
}
use flare_core.Negotiation.Algorithms.{compression_eq, format_eq}
use flare_core.Parser.{Bytes, Codecs, ParseError, serialize}
use mathlib.Core.List.{append-nil, Perm}
use mathlib.Core.List.Perm
use mathlib.Core.List.{Permᴰ}
use flare_core.Connection.Manager.Sending.Groups.{
  encoder, AreEncoded, AreGrouped, AreEncodedAsNegotiated, all_of, group_snapshots-AreGrouped,
  group_snapshots-perm, AreGrouped-perm, all_of-perm,
}

module _ {F : Type 0} (h : Hashers) (c : Codecs F) (system_type : F → Option ℕ) where
  module _ (frame : F) where
    abbrev pub fanout : Sender → List Snapshot → Sender × List Text
    unfolding fanout_frame_to_snapshots
    fanout s xs = fanout_frame_to_snapshots h c system_type s xs frame none

    and_id-append :
        (id : Text) (queued : Bool) (xs ys : List Text)
        → and_id h c system_type id xs queued ++ ys ≡ and_id h c system_type id (xs ++ ys) queued
    and_id-append id true xs ys = refl
    and_id-append id false xs ys = refl

    abbrev then_fanout : Sender × List Text → List Snapshot → Sender × List Text
    then_fanout (t, ids) ys = let (u, later) = fanout t ys in (u, ids ++ later)

    abbrev counted : Text → Bool → Sender × List Text → Sender × List Text
    counted id queued (u, ids) = (u, and_id h c system_type id ids queued)

    then_fanout-counted :
        (id : Text) (queued : Bool) (r : Sender × List Text) (ys : List Snapshot)
        → counted id queued (then_fanout r ys) ≡ then_fanout (counted id queued r) ys
    then_fanout-counted id true r ys = refl
    then_fanout-counted id false r ys = refl

    fanout-append :
        (s : Sender) (xs ys : List Snapshot) → fanout s (xs ++ ys) ≡ then_fanout (fanout s xs) ys
    unfolding fanout_frame_to_snapshots
    fanout-append s [] ys = refl
    fanout-append s ((id, writer, info) ∷ xs) ys =
        let (t, queued) =
          deliver_encoded h s id writer
            (serialize_frame_for_connection c system_type id info frame none) in
        ap (counted id queued) (fanout-append t xs ys)
        ∙ then_fanout-counted id queued (fanout t xs) ys

    same_encoding :
        (allowed : Result SendError (Unit {0})) (bytes : Bytes)
        → guarded allowed (lift_send (ok bytes)) ≡ allowed_bytes h c system_type allowed bytes
    same_encoding (ok _) bytes = refl
    same_encoding (err e) bytes = refl

    abbrev served : Text → List Snapshot → Sender × Bool → Sender × List Text
    unfolding fanout_frame_to_snapshots
    served id xs (t, queued) = counted id queued (fanout t xs)

    passed_over :
        (s : Sender) (id : Text) (writer : ℕ) (allowed : Result SendError (Unit {0}))
        (f : ParseError)
        → deliver_encoded h s id writer (guarded allowed (lift_send (err f))) ≡ (s, false)
    unfolding deliver_encoded
    passed_over s id writer (ok _) f = refl
    passed_over s id writer (err e) f = refl

    fanout_encoded-fanout :
        (s : Sender) (key : EncodingKey) (xs : List Snapshot) (r : Result ParseError Bytes)
        → serialize c (encoder key) frame ≡ r
        → AreEncoded key xs
        → fanout_encoded h c system_type s xs frame r ≡ fanout s xs
    unfolding fanout_bytes fanout_frame_to_snapshots serialize_frame_for_connection
    fanout_encoded-fanout s key [] (ok bytes) e a = refl
    fanout_encoded-fanout s key ((id, writer, info) ∷ xs) (ok bytes) e a =
        let allowed = ensure_frame_allowed_for_connection c system_type id info frame in
        let (t, queued) =
          deliver_encoded h s id writer (allowed_bytes h c system_type allowed bytes) in
        let same =
          sym (same_encoding allowed bytes)
          ∙ ap (λ r. guarded allowed (lift_send r)) (sym (ap (λ p. serialize c p frame) a.0 ∙ e)) in
        ap (counted id queued) (fanout_encoded-fanout t key xs (ok bytes) e a.1)
        ∙ ap (λ r. served id xs (deliver_encoded h s id writer r)) same
    fanout_encoded-fanout s key [] (err f) e a = refl
    fanout_encoded-fanout s key ((id, writer, info) ∷ xs) (err f) e a =
        let allowed = ensure_frame_allowed_for_connection c system_type id info frame in
        let skipped =
          ap (λ r. deliver_encoded h s id writer (guarded allowed (lift_send r)))
            (ap (λ p. serialize c p frame) a.0 ∙ e)
          ∙ passed_over s id writer allowed f in
        fanout_encoded-fanout s key xs (err f) e a.1 ∙ sym (ap (served id xs) skipped)

    abbrev then_groups :
        Sender × List Text → List (EncodingKey × List Snapshot) → Sender × List Text
    unfolding fanout_groups
    then_groups (t, ids) rest =
        let (u, later) = fanout_groups h c system_type t rest frame in (u, ids ++ later)

    fanout_groups-fanout :
        (s : Sender) (groups : List (EncodingKey × List Snapshot))
        → AreGrouped groups
        → fanout_groups h c system_type s groups frame ≡ fanout s (all_of groups)
    unfolding fanout_groups fanout_frame_to_snapshots
    fanout_groups-fanout s [] a = refl
    fanout_groups-fanout s ((key, group) ∷ rest) a =
        let (t, ids) = fanout s group in
        ap (λ r. then_groups r rest)
          (fanout_encoded-fanout s key group (serialize c (encoder key) frame) refl a.0)
        ∙ ap (λ r. (r.0, ids ++ r.1)) (fanout_groups-fanout t rest a.1)
        ∙ sym (fanout-append s group (all_of rest))

    -- The order in which the frame is put into the connections' queues.
    abbrev pub regrouped :
        (List (EncodingKey × List Snapshot) → List (EncodingKey × List Snapshot))
        → List Snapshot
        → List Snapshot
    unfolding group_snapshots
    regrouped iter xs =
        let (groups, encrypted) = group_snapshots ([], []) xs in all_of (iter groups) ++ encrypted

    -- Encoding a frame once for each encoding does what encoding it for each connection does, in
    -- the order of the groups: the same bytes in the same queues, the same connections isolated
    -- and the same ids. That order is a permutation of the connections'. It holds whatever
    -- permutation the iteration over the groups is, where what is cached for a connection that
    -- negotiated no encryption is what it negotiated.
    pub fanout_grouped-fanout_frame_to_snapshots :
        (iter : List (EncodingKey × List Snapshot) → List (EncodingKey × List Snapshot))
        (s : Sender) (xs : List Snapshot)
        → ((groups : List (EncodingKey × List Snapshot)) → Permᴰ groups (iter groups))
        → AreEncodedAsNegotiated xs
        → (fanout_grouped h c system_type iter s xs frame
            ≡ fanout_frame_to_snapshots h c system_type s (regrouped iter xs) frame none)
          × Perm (regrouped iter xs) xs
    unfolding fanout_grouped fanout_frame_to_snapshots group_snapshots
    fanout_grouped-fanout_frame_to_snapshots iter s xs order n =
        let (groups, encrypted) = group_snapshots ([], []) xs in
        let a = AreGrouped-perm (order groups) (group_snapshots-AreGrouped ([], []) xs tt n) in
        (
          ap (λ r. then_fanout r encrypted) (fanout_groups-fanout s (iter groups) a)
              ∙ sym (fanout-append s (all_of (iter groups)) encrypted),
          subst (Perm (regrouped iter xs)) (append-nil xs) (
              Perm.trans (Perm.append_right encrypted (Perm.symm (all_of-perm (order groups))))
                (group_snapshots-perm ([], []) xs)),
        )

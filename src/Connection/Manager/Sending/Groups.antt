-- ===== src/Connection/Manager/Sending/Groups.antt =====
-- Proofs on the groups of the fan-out of manager/ops.rs that encodes a frame once for each encoding.
use flare_core.Base.{
  ◌≡◌, refl, sym, ap, ◌∙◌, subst, Bool, true, false, not, List, [], ◌∷◌, ◌++◌, Option, none, some,
  arith, if◌then◌else◌, ◌==◌, Bool-cases, inl, inr, pair_eq, append_assoc,
}
use flare_core.Connection.Info.{
  ConnectionInfo, MessageParser, parser_new, pre_negotiation_parser, unencrypted, json,
  uncompressed,
}
use flare_core.Connection.Manager.Gate.{parser_for}
use flare_core.Connection.Manager.Sending.{
  Snapshot, EncodingKey, Groups, push_group, plain_key, group_at, group_snapshot, group_snapshots,
}
use flare_core.Negotiation.Algorithms.{compression_eq, format_eq, is_unencrypted}
use mathlib.Core.Option.{some_inj}
use mathlib.Core.List.{Perm, perm_append_singleton, perm_middle}
use mathlib.Core.List.Perm
use mathlib.Core.List.{Permᴰ}
use mathlib.Core.List.Permᴰ

abbrev pub encoder : EncodingKey → MessageParser
encoder (format, compression) = parser_new format compression unencrypted

abbrev pub info_of : Snapshot → ConnectionInfo
info_of (id, writer, info) = info

-- All of these are written to with the encoder of the key.
abbrev pub AreEncoded : EncodingKey → List Snapshot → Type 0
AreEncoded key [] = Unit {0}
AreEncoded key ((id, writer, info) ∷ xs) = (parser_for info ≡ encoder key) × AreEncoded key xs

abbrev pub AreGrouped : List (EncodingKey × List Snapshot) → Type 0
AreGrouped [] = Unit {0}
AreGrouped (g ∷ rest) = AreEncoded g.0 g.1 × AreGrouped rest

-- Once negotiated in plain, what is cached for the connection is what it negotiated.
unfoldable pub IsEncodedAsNegotiated : ConnectionInfo → Type 0
unfolding is_unencrypted
IsEncodedAsNegotiated info =
    info.negotiation_completed ≡ true
    → is_unencrypted info.encryption ≡ true
    → parser_for info ≡ encoder (info.serialization_format, info.compression)

abbrev pub AreEncodedAsNegotiated : List Snapshot → Type 0
AreEncodedAsNegotiated [] = Unit {0}
AreEncodedAsNegotiated ((id, writer, info) ∷ xs) =
    IsEncodedAsNegotiated info × AreEncodedAsNegotiated xs

abbrev pub all_of : List (EncodingKey × List Snapshot) → List Snapshot
all_of [] = []
all_of (g ∷ rest) = g.1 ++ all_of rest

AreEncoded-append :
    (key : EncodingKey) (xs : List Snapshot) (x : Snapshot)
    → AreEncoded key xs
    → parser_for (info_of x) ≡ encoder key
    → AreEncoded key (xs ++ x ∷ [])
AreEncoded-append key [] x a p = (p, tt)
AreEncoded-append key (_ ∷ xs) x a p = (a.0, AreEncoded-append key xs x a.1 p)

push_group-AreGrouped :
    (groups : List (EncodingKey × List Snapshot)) (key : EncodingKey) (x : Snapshot)
    → AreGrouped groups
    → parser_for (info_of x) ≡ encoder key
    → AreGrouped (push_group groups key x)
unfolding push_group
push_group-AreGrouped [] key x a p = ((p, tt), tt)
push_group-AreGrouped ((k, group) ∷ rest) key x a p = elim (Bool-cases (k == key)) [
  | inl e ↦
      rw e
        (AreEncoded-append k group x a.0 (p ∙ ap encoder (sym ((pair_eq.eq_iff k key).0 e))), a.1)
  | inr e ↦ rw e (a.0, push_group-AreGrouped rest key x a.1 p)
]

push_group-perm :
    (groups : List (EncodingKey × List Snapshot)) (key : EncodingKey) (x : Snapshot)
    → Perm (all_of (push_group groups key x)) (x ∷ all_of groups)
unfolding push_group
push_group-perm [] key x = Perm.rfl
push_group-perm ((k, group) ∷ rest) key x = elim (Bool-cases (k == key)) [
  | inl e ↦ rw e (Perm.append_right (all_of rest) (perm_append_singleton x group))
  | inr e ↦ rw e (
      Perm.trans (Perm.append_left group (push_group-perm rest key x))
        (perm_middle group (all_of rest)))
]

pub AreGrouped-perm :
    {xs ys : List (EncodingKey × List Snapshot)} → Permᴰ xs ys → AreGrouped xs → AreGrouped ys
AreGrouped-perm Permᴰ.nil a = tt
AreGrouped-perm (Permᴰ.cons e p) a = (subst (λ g. AreEncoded g.0 g.1) e a.0, AreGrouped-perm p a.1)
AreGrouped-perm (Permᴰ.swap e f) a =
    (subst (λ g. AreEncoded g.0 g.1) f a.1.0, (subst (λ g. AreEncoded g.0 g.1) e a.0, a.1.1))
AreGrouped-perm (Permᴰ.trans p q) a = AreGrouped-perm q (AreGrouped-perm p a)

swapped : (xs ys zs : List Snapshot) → Perm (xs ++ (ys ++ zs)) (ys ++ (xs ++ zs))
swapped xs ys zs =
    subst (λ l. Perm l (ys ++ (xs ++ zs))) (append_assoc xs ys zs)
      (subst (Perm ((xs ++ ys) ++ zs)) (append_assoc ys xs zs)
        (Perm.append_right zs ∣ Permᴰ.append_comm xs ys ∣₁))

pub all_of-perm :
    {xs ys : List (EncodingKey × List Snapshot)} → Permᴰ xs ys → Perm (all_of xs) (all_of ys)
all_of-perm Permᴰ.nil = Perm.rfl
all_of-perm (Permᴰ.cons {a} {b} {l₁} {l₂} e p) =
    subst (λ g. Perm (all_of (a ∷ l₁)) (g.1 ++ all_of l₂)) e (Perm.append_left a.1 (all_of-perm p))
all_of-perm (Permᴰ.swap {a} {b} {a'} {b'} {l} e f) =
    subst (λ g. Perm (all_of (a ∷ b ∷ l)) (g.1 ++ (b'.1 ++ all_of l))) f
      (subst (λ g. Perm (all_of (a ∷ b ∷ l)) (b.1 ++ (g.1 ++ all_of l))) e
        (swapped a.1 b.1 (all_of l)))
all_of-perm (Permᴰ.trans p q) = Perm.trans (all_of-perm p) (all_of-perm q)

key_when-encoder :
    (info : ConnectionInfo) (key : EncodingKey) (completed plain : Bool)
    → info.negotiation_completed ≡ completed
    → (completed ≡ true
        → plain ≡ true
        → parser_for info ≡ encoder (info.serialization_format, info.compression))
    → (if not completed
        then some (json, uncompressed)
        else if plain
        then some (info.serialization_format, info.compression)
        else none)
      ≡ some key
    → parser_for info ≡ encoder key
unfolding pre_negotiation_parser parser_new
key_when-encoder info key false plain p n e = rw p (ap encoder (some_inj.0 e))
key_when-encoder info key true true p n e = n refl refl ∙ ap encoder (some_inj.0 e)
key_when-encoder info key true false p n e = absurd (ground arith)

plain_key-encoder :
    (info : ConnectionInfo) (key : EncodingKey)
    → IsEncodedAsNegotiated info
    → plain_key info ≡ some key
    → parser_for info ≡ encoder key
unfolding plain_key is_unencrypted IsEncodedAsNegotiated
plain_key-encoder info key n e =
    key_when-encoder info key info.negotiation_completed (is_unencrypted info.encryption) refl n e

group_at-AreGrouped :
    (g : Groups) (x : Snapshot) (o : Option EncodingKey)
    → AreGrouped g.0
    → ((key : EncodingKey) → o ≡ some key → parser_for (info_of x) ≡ encoder key)
    → AreGrouped (group_at g x o).0
unfolding push_group
group_at-AreGrouped (groups, encrypted) x none a n = a
group_at-AreGrouped (groups, encrypted) x (some key) a n =
    push_group-AreGrouped groups key x a (n key refl)

pub group_snapshots-AreGrouped :
    (g : Groups) (xs : List Snapshot)
    → AreGrouped g.0
    → AreEncodedAsNegotiated xs
    → AreGrouped (group_snapshots g xs).0
unfolding group_snapshots group_snapshot
group_snapshots-AreGrouped g [] a n = a
group_snapshots-AreGrouped g ((id, writer, info) ∷ xs) a n =
    group_snapshots-AreGrouped (group_snapshot g (id, writer, info)) xs
      (group_at-AreGrouped g (id, writer, info) (plain_key info) a
        (λ key e. plain_key-encoder info key n.0 e))
      n.1

abbrev pub spread : Groups → List Snapshot
spread (groups, encrypted) = all_of groups ++ encrypted

group_at-perm :
    (g : Groups) (x : Snapshot) (o : Option EncodingKey)
    → Perm (spread (group_at g x o)) (x ∷ spread g)
unfolding push_group
group_at-perm (groups, encrypted) x (some key) =
    Perm.append_right encrypted (push_group-perm groups key x)
group_at-perm (groups, encrypted) x none =
    Perm.trans (Perm.append_left (all_of groups) (perm_append_singleton x encrypted))
      (perm_middle (all_of groups) encrypted)

group_snapshot-perm :
    (g : Groups) (x : Snapshot) → Perm (spread (group_snapshot g x)) (x ∷ spread g)
unfolding group_snapshot
group_snapshot-perm g (id, writer, info) = group_at-perm g (id, writer, info) (plain_key info)

pub group_snapshots-perm :
    (g : Groups) (xs : List Snapshot) → Perm (spread (group_snapshots g xs)) (xs ++ spread g)
unfolding group_snapshots
group_snapshots-perm g [] = Perm.rfl
group_snapshots-perm g (x ∷ xs) =
    Perm.trans (group_snapshots-perm (group_snapshot g x) xs)
      (Perm.trans (Perm.append_left xs (group_snapshot-perm g x)) (perm_middle xs (spread g)))

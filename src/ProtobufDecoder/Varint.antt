-- ===== src/ProtobufDecoder/Varint.antt =====
-- Proofs on `read_varint` of src/common/protobuf_decoder.rs.
use flare_core.Base.{
  ℕ, zero, suc, ◌+◌, ◌*◌, ◌%◌, ◌^◌, ◌<◌, ◌≡◌, ap, List, [], ◌∷◌, ◌++◌, arith, if◌then◌else◌, ltb,
  length,
}
use flare_core.ProtobufDecoder.{read, read_loop, read_varint}
use Prim.Native.Nat.{◌/◌}
use native.Mathlib.Nat.{div-add-mod}
use native.Mathlib.Numerals.{towards_suc}

-- The encoding that the format prescribes: groups of seven bits, the lowest first, each but the last
-- with the top bit set; `fuel` bytes at most.
unfoldable pub groups : ℕ → ℕ → List ℕ
groups zero v = []
groups (suc fuel) v =
    let rest = groups fuel (v / 128) in if ltb v 128 then v ∷ [] else (128 + v % 128) ∷ rest

-- Ten bytes hold every `u64`.
abbrev pub varint : ℕ → List ℕ
varint v = groups 10 v

shift_up : (s : ℕ) → 2 ^ (s + 7) ≡ 128 * 2 ^ s
shift_up s = simp towards_suc (omega arith)

low_and_high : (v s : ℕ) → v * 2 ^ s ≡ (v % 128) * 2 ^ s + (v / 128) * 2 ^ (s + 7)
low_and_high v s = omega (
  arith,
  shift_up s,
  ap (λ (t : ℕ). t * 2 ^ s) (div-add-mod v 128),
  ap (λ (t : ℕ). v / 128 * t) (shift_up s),
)

last_group :
    (rounds v result shift position : ℕ) (rest : List ℕ)
    → v < 128
    → result + v * 2 ^ shift < 2 ^ 64
    → read_loop (suc rounds) (v ∷ rest) result shift position
      ≡ read (result + v * 2 ^ shift) (position + 1)
unfolding read_loop
last_group rounds v result shift position rest h fits = ground arith

inner_group :
    (rounds g result shift position : ℕ) (rest : List ℕ)
    → g < 128
    → result + g * 2 ^ shift < 2 ^ 64
    → read_loop (suc rounds) ((128 + g) ∷ rest) result shift position
      ≡ read_loop rounds rest (result + g * 2 ^ shift) (shift + 7) (position + 1)
unfolding read_loop
inner_group rounds g result shift position rest h fits = ground arith

-- The loop reads what is left of a number, `v`, on top of what it has.
read_loop-groups :
    (fuel v result shift position : ℕ) (rest : List ℕ)
    → v < 128 ^ suc fuel
    → result + v * 2 ^ shift < 2 ^ 64
    → read_loop (suc fuel) (groups (suc fuel) v ++ rest) result shift position
      ≡ read (result + v * 2 ^ shift) (position + length (groups (suc fuel) v))
unfolding groups
read_loop-groups zero v result shift position rest h fits =
    ground (arith, last_group zero v result shift position rest)
read_loop-groups (suc fuel) v result shift position rest h fits = ground (
  arith,
  low_and_high v shift,
  last_group (suc fuel) v result shift position rest,
  inner_group (suc fuel) (v % 128) result shift position (groups (suc fuel) (v / 128) ++ rest),
  read_loop-groups fuel (v / 128) (result + (v % 128) * 2 ^ shift) (shift + 7) (position + 1) rest,
)

-- Every `u64` is read back from its encoding, whatever follows.
pub read_varint-varint :
    (v : ℕ) (rest : List ℕ)
    → v < 2 ^ 64
    → read_varint (varint v ++ rest) ≡ read v (length (varint v))
unfolding read_varint
read_varint-varint v rest h = ground (arith, read_loop-groups 9 v 0 0 0 rest)

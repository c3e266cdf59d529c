-- ===== src/Negotiation/Typed.antt =====
-- A typed reason is the same without the white space around it.
use flare_core.Base.{◌≡◌, refl, true, [], ◌∷◌, arith, Text}
use flare_core.Base.Chars.{is_whitespace, trim_start, trim}
use flare_core.Negotiation.Settle.{all_typed, is_typed_reason}
use mathlib.Core.List.{reverse, reverse_aux, reverse-reverse}

trim_start-typed : (s : Text) → all_typed s ≡ true → trim_start s ≡ s
unfolding trim_start is_whitespace
trim_start-typed [] h = refl
trim_start-typed (c ∷ s) h = ground arith

all_typed-reverse_aux :
    (s t : Text) → all_typed s ≡ true → all_typed t ≡ true → all_typed (reverse_aux s t) ≡ true
all_typed-reverse_aux [] t h k = k
all_typed-reverse_aux (c ∷ s) t h k = all_typed-reverse_aux s (c ∷ t) (ground arith) (ground arith)

pub trim-typed : (s : Text) → all_typed s ≡ true → trim s ≡ s
unfolding trim
trim-typed s h =
    let r = all_typed-reverse_aux s [] h refl in
    rw (trim_start-typed s h, trim_start-typed (reverse s) r) (reverse-reverse s)

pub is_typed_reason-all_typed : (s : Text) → is_typed_reason s ≡ true → all_typed s ≡ true
unfolding is_typed_reason
is_typed_reason-all_typed [] h = refl
is_typed_reason-all_typed (c ∷ s) h = ground arith

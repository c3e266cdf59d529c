-- ===== src/Framing.antt =====
-- The length-prefixed frames of src/transport/framing.rs. A reader is the bytes it still yields and
-- what comes then, the end of the stream or an I/O error; a writer is the bytes it took, how many more
-- it takes, and its error.
use flare_core.Base.{
  ℕ, ◌+◌, ◌*◌, ◌-◌, ◌%◌, ◌^◌, ◌≤◌, ◌<◌, ◌≡◌, refl, List, [], ◌∷◌, ◌++◌, arith, Text, ltb, leb,
  nat_beq, if◌then◌else◌, Result, ok, err, length, take, drop, length-append, append_assoc,
  take-length-append, drop-length-append,
}
use Prim.Native.Nat.{◌/◌}

pub data FramingError : Type 0 where
  io_error : Text → FramingError
  frame_too_large : ℕ → FramingError

-- Why `read_exact` fails.
pub data ReadFailure : Type 0 where
  unexpected_eof other_failure : Text → ReadFailure

pub record Reader : Type 0 where
  pub available : List ℕ
  pub failure : ReadFailure

pub record Writer : Type 0 where
  pub written : List ℕ
  pub accepts : ℕ
  pub write_error : Text

abbrev pub max_frame_length : ℕ
max_frame_length = 10 * 1024 * 1024

-- `AsyncReadExt::read_exact`
abbrev read_exact : Reader → ℕ → Reader × Result ReadFailure (List ℕ)
read_exact r n =
    if leb n (length r.available)
    then (record r { available = drop n r.available }, ok (take n r.available))
    else (record r { available = [] }, err r.failure)

-- `AsyncWriteExt::write_all`
abbrev write_all : Writer → List ℕ → Writer × Result Text (Unit {0})
write_all w bytes =
    if leb (length bytes) w.accepts
    then (record w { written = w.written ++ bytes; accepts = w.accepts - length bytes }, ok tt)
    else (record w { written = w.written ++ take w.accepts bytes; accepts = 0 }, err w.write_error)

-- `u32::to_be_bytes` of `length as u32`
unfoldable pub to_be_bytes : ℕ → List ℕ
to_be_bytes n = (n / 2 ^ 24) % 256 ∷ (n / 2 ^ 16) % 256 ∷ (n / 2 ^ 8) % 256 ∷ n % 256 ∷ []

unfoldable pub from_be_bytes : List ℕ → ℕ
from_be_bytes (a ∷ b ∷ c ∷ d ∷ []) = ((a * 256 + b) * 256 + c) * 256 + d
from_be_bytes _ = 0

abbrev describe : ReadFailure → FramingError
describe (unexpected_eof text) = io_error text
describe (other_failure text) = io_error text

abbrev payload : Reader × Result ReadFailure (List ℕ) → Reader × Result FramingError (List ℕ)
payload (r, ok bytes) = (r, ok bytes)
payload (r, err e) = (r, err (describe e))

unfoldable pub after_length :
    Reader × Result ReadFailure (List ℕ) → Reader × Result FramingError (List ℕ)
after_length (r, err (unexpected_eof text)) = (r, ok [])
after_length (r, err (other_failure text)) = (r, err (io_error text))
after_length (r, ok prefix) =
    let n = from_be_bytes prefix in
    if nat_beq n 0
    then (r, ok [])
    else if ltb max_frame_length n
    then (r, err (frame_too_large n))
    else payload (read_exact r n)

unfoldable pub read_length_prefixed : Reader → Reader × Result FramingError (List ℕ)
read_length_prefixed r = after_length (read_exact r 4)

abbrev finished : Writer × Result Text (Unit {0}) → Writer × Result FramingError (Unit {0})
finished (w, ok _) = (w, ok tt)
finished (w, err text) = (w, err (io_error text))

abbrev then_data :
    Writer × Result Text (Unit {0}) → List ℕ → Writer × Result FramingError (Unit {0})
then_data (w, err text) bytes = (w, err (io_error text))
then_data (w, ok _) bytes = finished (write_all w bytes)

unfoldable pub write_length_prefixed : Writer → List ℕ → Writer × Result FramingError (Unit {0})
write_length_prefixed w bytes =
    if ltb max_frame_length (length bytes)
    then (w, err (frame_too_large (length bytes)))
    else then_data (write_all w (to_be_bytes (length bytes % 2 ^ 32))) bytes

from_be_bytes-to_be_bytes : (n : ℕ) → n < 2 ^ 32 → from_be_bytes (to_be_bytes n) ≡ n
unfolding from_be_bytes to_be_bytes
from_be_bytes-to_be_bytes n h = omega arith

-- The bytes of a frame.
abbrev pub frame : List ℕ → List ℕ
frame bytes = to_be_bytes (length bytes) ++ bytes

read_exact-append :
    (xs ys : List ℕ) (f : ReadFailure) (n : ℕ)
    → length xs ≡ n
    → read_exact (record { available = xs ++ ys; failure = f }) n
      ≡ (record { available = ys; failure = f }, ok xs)
read_exact-append xs ys f n e =
    ground (arith, length-append xs ys, take-length-append xs ys, drop-length-append xs ys)

length-to_be_bytes : (n : ℕ) → length (to_be_bytes n) ≡ 4
unfolding to_be_bytes
length-to_be_bytes n = refl

after_length-ok :
    (r : Reader) (prefix : List ℕ)
    → 0 < from_be_bytes prefix
    → from_be_bytes prefix ≤ max_frame_length
    → after_length (r, ok prefix) ≡ payload (read_exact r (from_be_bytes prefix))
unfolding after_length
after_length-ok r prefix p h = ground arith

after_length-large :
    (r : Reader) (n : ℕ)
    → max_frame_length < n
    → n < 2 ^ 32
    → after_length (r, ok (to_be_bytes n)) ≡ (r, err (frame_too_large n))
unfolding after_length
after_length-large r n g k = ground (arith, from_be_bytes-to_be_bytes n k)

after_length-empty :
    (r : Reader) (prefix : List ℕ)
    → from_be_bytes prefix ≡ 0
    → after_length (r, ok prefix) ≡ (r, ok [])
unfolding after_length
after_length-empty r prefix p = ground arith

write-large :
    (w : Writer) (bytes : List ℕ)
    → max_frame_length < length bytes
    → write_length_prefixed w bytes ≡ (w, err (frame_too_large (length bytes)))
unfolding write_length_prefixed
write-large w bytes h = ground arith

write_all-ok :
    (w : Writer) (bytes : List ℕ)
    → length bytes ≤ w.accepts
    → write_all w bytes
      ≡ (record w { written = w.written ++ bytes; accepts = w.accepts - length bytes }, ok tt)
write_all-ok w bytes h = ground arith

write-fits :
    (w : Writer) (bytes : List ℕ)
    → length bytes ≤ max_frame_length
    → 4 + length bytes ≤ w.accepts
    → write_length_prefixed w bytes ≡ (
      record w {
        written = (w.written ++ to_be_bytes (length bytes)) ++ bytes;
        accepts = (w.accepts - 4) - length bytes;
      },
      ok tt,
    )
unfolding write_length_prefixed
write-fits w bytes h a =
    let n = length bytes in
    let v = record w { written = w.written ++ to_be_bytes n; accepts = w.accepts - 4 } in
    ground (arith, write_all-ok w (to_be_bytes n), length-to_be_bytes n, write_all-ok v bytes)

-- A writer with room for it takes exactly the length and the payload of a frame of at most ten
-- mebibytes.
pub write_length_prefixed-frame :
    (w : Writer) (bytes : List ℕ)
    → length bytes ≤ max_frame_length
    → 4 + length bytes ≤ w.accepts
    → ((write_length_prefixed w bytes).1 ≡ ok tt)
      × ((write_length_prefixed w bytes).0.written ≡ w.written ++ frame bytes)
write_length_prefixed-frame w bytes h a =
    ground
      (arith, write-fits w bytes h a, append_assoc w.written (to_be_bytes (length bytes)) bytes)

-- A frame of at most ten mebibytes is read back from the bytes that were written for it, and
-- whatever follows is left for the next reading.
pub read_length_prefixed-frame :
    (bytes rest : List ℕ) (f : ReadFailure)
    → length bytes ≤ max_frame_length
    → read_length_prefixed (record { available = frame bytes ++ rest; failure = f })
      ≡ (record { available = rest; failure = f }, ok bytes)
unfolding read_length_prefixed
read_length_prefixed-frame bytes rest f h =
    let n = length bytes in
    let r : Reader = record { available = bytes ++ rest; failure = f } in
    ground (
      arith,
      append_assoc (to_be_bytes n) bytes rest,
      read_exact-append (to_be_bytes n) (bytes ++ rest) f 4 (length-to_be_bytes n),
      from_be_bytes-to_be_bytes n (omega arith),
      after_length-ok r (to_be_bytes n),
      after_length-empty r (to_be_bytes n),
      read_exact-append bytes rest f n refl,
    )

-- A length over ten mebibytes is refused once it is read, before any of the payload is.
pub read_length_prefixed-too_large :
    (rest : List ℕ) (f : ReadFailure) (n : ℕ)
    → max_frame_length < n
    → n < 2 ^ 32
    → read_length_prefixed (record { available = to_be_bytes n ++ rest; failure = f })
      ≡ (record { available = rest; failure = f }, err (frame_too_large n))
unfolding read_length_prefixed
read_length_prefixed-too_large rest f n g k =
    rw (read_exact-append (to_be_bytes n) rest f 4 (length-to_be_bytes n))
      (after_length-large (record { available = rest; failure = f }) n g k)

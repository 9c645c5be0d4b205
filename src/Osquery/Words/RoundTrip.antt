-- ===== src/Osquery/Words/RoundTrip.antt =====
-- What agent/src/osquery/thrift.rs writes of integers and strings is read back.
use native.Mathlib.Nat.{pow-suc}
use mathlib.Core.List.{append_assoc}
use renga.Prelude.{
  take-append, drop-append, ℕ, zero, suc, ◌+◌, ◌*◌, ◌/◌, ◌%◌, ◌^◌, ◌<◌, ◌≤◌, ◌≡◌, refl, ◌∙◌, [],
  ◌∷◌, ◌++◌, length, length-append, ok, arith,
}
use renga.Bytes.{Bytes}
use renga.Osquery.Words.{
  to_be, from_be, read_array, read_int, read_size, read_bytes, write_bytes, i32_mod, max_elements,
  max_reply_bytes,
}

from_be-append : (n : ℕ) (xs ys : Bytes) → from_be n (xs ++ ys) ≡ from_be (from_be n xs) ys
unfolding from_be
from_be-append n [] ys = refl
from_be-append n (x ∷ xs) ys = from_be-append (n * 256 + x) xs ys

length-to_be : (w n : ℕ) → length (to_be w n) ≡ w
unfolding to_be
length-to_be zero n = refl
length-to_be (suc w) n =
    omega (arith, length-append (to_be w (n / 256)) ((n % 256) ∷ []), length-to_be w (n / 256))

from_be-to_be : (w n : ℕ) → n < 256 ^ w → from_be 0 (to_be w n) ≡ n
unfolding to_be from_be
from_be-to_be zero n h = omega arith
from_be-to_be (suc w) n h =
    from_be-append 0 (to_be w (n / 256)) ((n % 256) ∷ [])
    ∙ omega (arith, from_be-to_be w (n / 256) (omega (arith, pow-suc 256 w)))

pub read_array-append :
    (n : ℕ) (xs ys : Bytes) → length xs ≡ n → read_array n (xs ++ ys) ≡ (ok xs, ys)
unfolding read_array
read_array-append n xs ys h =
    ground (arith, length-append xs ys, take-append xs ys, drop-append xs ys)

pub read_int-to_be :
    (w n : ℕ) (rest : Bytes) → n < 256 ^ w → read_int w (to_be w n ++ rest) ≡ (ok n, rest)
unfolding read_int
read_int-to_be w n rest h =
    rw (read_array-append w (to_be w n) rest (length-to_be w n), from_be-to_be w n h)

-- The sizes of containers.
pub read_size-to_be :
    (n : ℕ) (rest : Bytes)
    → n ≤ max_elements
    → read_size (to_be 4 (n % i32_mod) ++ rest) ≡ (ok n, rest)
unfolding read_size
read_size-to_be n rest h =
    let whole : n % i32_mod ≡ n = omega arith in
    rw (whole, read_int-to_be 4 n rest (omega arith)) (ground arith)

pub read_bytes-write_bytes :
    (s rest : Bytes)
    → length s ≤ max_reply_bytes
    → read_bytes (write_bytes s ++ rest) ≡ (ok s, rest)
unfolding read_bytes write_bytes
read_bytes-write_bytes s rest h =
    let whole : length s % i32_mod ≡ length s = omega arith in
    rw
      (
        whole,
        append_assoc (to_be 4 (length s)) s rest,
        read_int-to_be 4 (length s) (s ++ rest) (omega arith),
      )
      (ground (arith, read_array-append (length s) s rest refl))

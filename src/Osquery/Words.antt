-- ===== src/Osquery/Words.antt =====
-- Big-endian integers and the reading of a byte stream: `to_be_bytes`, `from_be_bytes`, `read_array`
-- and `read_bytes` of agent/src/osquery/thrift.rs.
--
-- An integer of w bytes is its bit pattern, below 256 ^ w, signed or not. A reader is a function of
-- the bytes that are left.
pub mod RoundTrip
use renga.Prelude.{
  ℕ, zero, suc, ◌+◌, ◌*◌, ◌/◌, ◌%◌, ◌^◌, List, [], ◌∷◌, ◌++◌, ltb, leb, if◌then◌else◌, length, take,
  drop, Result, ok, err, Stateful, pure, raise, gets, ◌>>=◌, ◌>>◌,
}
use renga.Bytes.{Bytes}

pub data ThriftError : Type 0 where
  unexpected_eof not_strict not_utf8 too_deep size_out_of_range negative_length too_long :
      ThriftError
  unknown_type : ℕ → ThriftError

abbrev pub Reader : Type 0 → Type 0
Reader = Stateful Bytes ThriftError

unfoldable pub to_be : ℕ → ℕ → Bytes
to_be zero n = []
to_be (suc w) n = to_be w (n / 256) ++ (n % 256) ∷ []

unfoldable pub from_be : ℕ → Bytes → ℕ
from_be n [] = n
from_be n (b ∷ bs) = from_be (n * 256 + b) bs

-- `read_exact`, which fails if there are fewer bytes left.
unfoldable pub read_array : ℕ → Reader Bytes
read_array n s = if ltb (length s) n then (err unexpected_eof, []) else (ok (take n s), drop n s)

unfoldable pub read_int : ℕ → Reader ℕ
read_int w = do bytes ← read_array w; pure (from_be 0 bytes)

-- 2 ^ 31: a pattern from here on is a negative `i32`.
abbrev pub i32_sign : ℕ
i32_sign = 2147483648

abbrev pub i32_mod : ℕ
i32_mod = 2 ^ 32

-- 16 MiB.
abbrev pub max_reply_bytes : ℕ
max_reply_bytes = 16 * 1024 * 1024

abbrev pub max_elements : ℕ
max_elements = 2 ^ 20

unfoldable pub read_size : Reader ℕ
read_size = do
  size ← read_int 4
  if leb i32_sign size
      then raise size_out_of_range
      else (if leb size max_elements then pure size else raise size_out_of_range)

unfoldable pub read_bytes : Reader Bytes
read_bytes = do
  len ← read_int 4
  if leb i32_sign len
      then raise negative_length
      else (if ltb max_reply_bytes len then raise too_long else read_array len)

unfoldable pub write_bytes : Bytes → Bytes
write_bytes bytes = to_be 4 (length bytes % i32_mod) ++ bytes

-- ===== src/Bytes/Decimal.antt =====
-- Decimal numbers: `str::parse::<u64>`, zero-padded printing, `split_once` and `strip_suffix`.
use renga.Prelude.{
  ℕ, zero, suc, ◌+◌, ◌-◌, ◌*◌, ◌/◌, ◌%◌, ◌^◌, max, Bool, true, false, ◌&&◌, Option, none, some,
  List, [], ◌∷◌, ◌++◌, ltb, leb, ◌==◌, if◌then◌else◌, length, drop, take,
}

abbrev pub Bytes : Type 0
Bytes = List ℕ

abbrev pub u64_mod : ℕ
u64_mod = 2 ^ 64

unfoldable pub bytes_eq : Bytes → Bytes → Bool
bytes_eq [] [] = true
bytes_eq (x ∷ xs) (y ∷ ys) = x == y && bytes_eq xs ys
bytes_eq _ _ = false

abbrev pub is_digit : ℕ → Bool
is_digit c = leb b'0' c && leb c b'9'

unfoldable pub parse_digits : ℕ → Bytes → Option ℕ
parse_digits n [] = some n
parse_digits n (c ∷ cs) = if is_digit c then parse_digits (n * 10 + (c - b'0')) cs else none

unsigned : Bytes → Option ℕ
unsigned [] = none
unsigned (c ∷ cs) = parse_digits 0 (c ∷ cs)

-- One leading plus sign is accepted, as by Rust's `u64::from_str`.
without_plus : Bytes → Bytes
without_plus [] = []
without_plus (c ∷ cs) = if c == b'+' then cs else c ∷ cs

below_bound : Option ℕ → Option ℕ
below_bound none = none
below_bound (some n) = if ltb n u64_mod then some n else none

unfoldable pub parse_u64 : Bytes → Option ℕ
unfolding parse_digits unsigned without_plus below_bound
parse_u64 s = below_bound (unsigned (without_plus s))

-- The last `w` decimal digits of `n`, most significant first.
unfoldable pub fixed : ℕ → ℕ → Bytes
fixed zero n = []
fixed (suc w) n = fixed w (n / 10) ++ (b'0' + n % 10) ∷ []

-- How many digits `n` has; twenty rounds are enough below `u64_mod`.
unfoldable pub count_digits : ℕ → ℕ → ℕ
count_digits zero n = 1
count_digits (suc f) n = let rest = count_digits f (n / 10) in if ltb n 10 then 1 else suc rest

-- `{n:0w}`: padded to `w` digits, and longer if the number is.
unfoldable pub padded : ℕ → ℕ → Bytes
unfolding fixed count_digits
padded w n = fixed (max w (count_digits 20 n)) n

unfoldable pub split_once : ℕ → Bytes → Option (Bytes × Bytes)
split_once d [] = none
split_once d (c ∷ cs) =
    if c == d
    then some ([], cs)
    else elim (split_once d cs) [ none ↦ none | some (a, b) ↦ some (c ∷ a, b) ]

unfoldable pub strip_suffix : Bytes → Bytes → Option Bytes
unfolding bytes_eq
strip_suffix suffix s =
    let n = length s - length suffix in if bytes_eq (drop n s) suffix then some (take n s) else none

-- `str::split`, which has one part more than there are separators.
unfoldable pub split : ℕ → Bytes → List Bytes
split d [] = [] ∷ []
split d (c ∷ cs) =
    if c == d
    then [] ∷ split d cs
    else elim (split d cs) [ [] ↦ (c ∷ []) ∷ [] | s ∷ ss ↦ (c ∷ s) ∷ ss ]

-- ===== src/Bytes/RoundTrip.antt =====
-- Printing a number with leading zeros and parsing it again, and cutting a text where it was joined.
use native.Mathlib.Nat.{pow-suc}
use renga.Prelude.{
  ℕ, zero, suc, ◌+◌, ◌-◌, ◌*◌, ◌/◌, ◌%◌, ◌^◌, ◌<◌, ◌≤◌, max, ◌≡◌, refl, sym, ap, ◌∙◌, true, false,
  some, [], ◌∷◌, ◌++◌, arith, ◌==◌, length, drop, take, All, length-append,
}
use renga.Bytes.Decimal.{
  Bytes, u64_mod, bytes_eq, is_digit, parse_digits, parse_u64, fixed, count_digits, padded,
  split_once, strip_suffix,
}

pub length-fixed : (w n : ℕ) → length (fixed w n) ≡ w
unfolding fixed
length-fixed zero n = refl
length-fixed (suc w) n =
    omega (arith, length-append (fixed w (n / 10)) ((b'0' + n % 10) ∷ []), length-fixed w (n / 10))

pub fixed-All_digits : (w n : ℕ) → All (λ c. is_digit c ≡ true) (fixed w n)
unfolding fixed
fixed-All_digits zero n = tt
fixed-All_digits (suc w) n =
    snoc (fixed w (n / 10)) (n % 10) (omega arith) (fixed-All_digits w (n / 10))
  where
    snoc :
        (xs : Bytes) (d : ℕ)
        → d < 10
        → All (λ c. is_digit c ≡ true) xs
        → All (λ c. is_digit c ≡ true) (xs ++ (b'0' + d) ∷ [])
    snoc [] d h a = (ground arith, tt)
    snoc (x ∷ xs) d h a = (a.0, snoc xs d h a.1)

parse_digits-snoc :
    (xs : Bytes) (n m d : ℕ)
    → d < 10
    → parse_digits n xs ≡ some m
    → parse_digits n (xs ++ (b'0' + d) ∷ []) ≡ some (m * 10 + d)
unfolding parse_digits
parse_digits-snoc [] n m d h e = ground arith
parse_digits-snoc (x ∷ xs) n m d h e =
    ground (arith, parse_digits-snoc xs (n * 10 + (x - b'0')) m d h)

pub parse_digits-fixed :
    (w n acc : ℕ) → n < 10 ^ w → parse_digits acc (fixed w n) ≡ some (acc * 10 ^ w + n)
unfolding fixed
parse_digits-fixed zero n acc h = unfold parse_digits in ap some (omega arith)
parse_digits-fixed (suc w) n acc h =
    parse_digits-snoc (fixed w (n / 10)) acc (acc * 10 ^ w + n / 10) (n % 10) (omega arith)
      (parse_digits-fixed w (n / 10) acc (omega (arith, pow-suc 10 w)))
    ∙ ap some (omega (arith, pow-suc 10 w, ap (λ (t : ℕ). acc * t) (pow-suc 10 w)))

-- A number that fits prints at its width, and the widths of the queue are never exceeded.
count_digits-le : (f w n : ℕ) → 0 < w → n < 10 ^ w → count_digits f n ≤ w
unfolding count_digits
count_digits-le zero w n p h = omega arith
count_digits-le (suc f) zero n p h = elim p [ ]
count_digits-le (suc f) (suc zero) n p h = ground arith
count_digits-le (suc f) (suc (suc w)) n p h =
    ground
      (arith, count_digits-le f (suc w) (n / 10) (omega arith) (omega (arith, pow-suc 10 (suc w))))

pub padded-eq-fixed : (w n : ℕ) → 0 < w → n < 10 ^ w → padded w n ≡ fixed w n
unfolding padded
padded-eq-fixed w n p h =
    let e : max w (count_digits 20 n) ≡ w = omega (arith, count_digits-le 20 w n p h) in
    ap (λ (v : ℕ). fixed v n) e

fixed-digit_first :
    (w n : ℕ) → (c : ℕ) × (cs : Bytes) × (fixed (suc w) n ≡ c ∷ cs) × (is_digit c ≡ true)
fixed-digit_first w n =
    go (fixed (suc w) n) (length-fixed (suc w) n) (fixed-All_digits (suc w) n) refl
  where
    go :
        (xs : Bytes)
        → length xs ≡ suc w
        → All (λ c. is_digit c ≡ true) xs
        → fixed (suc w) n ≡ xs
        → (c : ℕ) × (cs : Bytes) × (fixed (suc w) n ≡ c ∷ cs) × (is_digit c ≡ true)
    go [] l a e = absurd (omega arith)
    go (c ∷ cs) l a e = (c, cs, e, a.0)

pub parse_u64-fixed : (w n : ℕ) → 0 < w → n < 10 ^ w → n < u64_mod → parse_u64 (fixed w n) ≡ some n
unfolding parse_u64
parse_u64-fixed zero n p h k = elim p [ ]
parse_u64-fixed (suc w) n p h k =
    let first = fixed-digit_first w n in
    rw first.2 (
      ground (arith, first.3, ap (parse_digits 0) (sym first.2) ∙ parse_digits-fixed (suc w) n 0 h))

pub split_once-append :
    (d : ℕ) (xs ys : Bytes)
    → All (λ c. (c == d) ≡ false) xs
    → split_once d (xs ++ d ∷ ys) ≡ some (xs, ys)
unfolding split_once
split_once-append d [] ys a = ground arith
split_once-append d (x ∷ xs) ys a = ground (arith, split_once-append d xs ys a.1)

bytes_eq_refl : (xs : Bytes) → bytes_eq xs xs ≡ true
unfolding bytes_eq
bytes_eq_refl [] = refl
bytes_eq_refl (x ∷ xs) = ground (arith, bytes_eq_refl xs)

pub drop-append : (xs ys : Bytes) → drop (length xs) (xs ++ ys) ≡ ys
drop-append [] ys = refl
drop-append (x ∷ xs) ys = drop-append xs ys

pub take-append : (xs ys : Bytes) → take (length xs) (xs ++ ys) ≡ xs
take-append [] ys = refl
take-append (x ∷ xs) ys = ap (λ zs. x ∷ zs) (take-append xs ys)

pub strip_suffix-append : (xs ys : Bytes) → strip_suffix ys (xs ++ ys) ≡ some xs
unfolding strip_suffix
strip_suffix-append xs ys =
    let e : length (xs ++ ys) - length ys ≡ length xs = omega (arith, length-append xs ys) in
    rw (e, drop-append xs ys, take-append xs ys, bytes_eq_refl ys)

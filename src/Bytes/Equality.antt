-- ===== src/Bytes/Equality.antt =====
-- The equality of byte strings, and what `split_once` and unpadded printing return.
use renga.Prelude.{
  ℕ, zero, suc, ◌/◌, ◌^◌, ◌<◌, max, ◌≡◌, refl, Bool-cases, Option-cases, true, [], ◌∷◌, ◌++◌, arith,
  some, inl, inr, ltb,
}
use native.Mathlib.Nat.{pow-suc}
use renga.Bytes.Decimal.{Bytes, u64_mod, bytes_eq, split_once, padded, count_digits, parse_u64}
use renga.Bytes.RoundTrip.{parse_u64-fixed}

pub bytes_eq_sound : (xs ys : Bytes) → bytes_eq xs ys ≡ true → xs ≡ ys
unfolding bytes_eq
bytes_eq_sound [] [] h = refl
bytes_eq_sound (x ∷ xs) (y ∷ ys) h = ground (arith, bytes_eq_sound xs ys)
bytes_eq_sound xs ys h = cc

pub bytes_eq_refl : (xs : Bytes) → bytes_eq xs xs ≡ true
unfolding bytes_eq
bytes_eq_refl [] = refl
bytes_eq_refl (x ∷ xs) = ground (arith, bytes_eq_refl xs)

pub bytes_eq_sym : (xs ys : Bytes) → bytes_eq xs ys ≡ bytes_eq ys xs
unfolding bytes_eq
bytes_eq_sym [] [] = refl
bytes_eq_sym [] (y ∷ ys) = refl
bytes_eq_sym (x ∷ xs) [] = refl
bytes_eq_sym (x ∷ xs) (y ∷ ys) = ground (arith, bytes_eq_sym xs ys)

pub split_once_sound : (d : ℕ) (s a b : Bytes) → split_once d s ≡ some (a, b) → s ≡ a ++ d ∷ b
unfolding split_once
split_once_sound d [] a b h = cc
split_once_sound d (c ∷ cs) a b h = elim (Option-cases (split_once d cs)) [
  | inl e ↦ ground arith
  | inr ((x, y), e) ↦ ground (arith, split_once_sound d cs x y e)
]

count_digits-positive : (f n : ℕ) → 0 < count_digits f n
unfolding count_digits
count_digits-positive zero n = omega arith
count_digits-positive (suc f) n = ground arith

count_digits-bound : (f n : ℕ) → n < 10 ^ f → n < 10 ^ count_digits f n
unfolding count_digits
count_digits-bound zero n h = omega arith
count_digits-bound (suc f) n h =
    let tail = count_digits-bound f (n / 10) (omega (arith, pow-suc 10 f)) in
    let shift = pow-suc 10 (count_digits f (n / 10)) in
    elim (Bool-cases (ltb n 10)) [
      | inl e ↦ ground arith
      | inr e ↦ rw e (omega (arith, tail, shift))
    ]

-- Printing a 64-bit number without padding and parsing it gives it back.
pub parse_u64-padded : (n : ℕ) → n < u64_mod → parse_u64 (padded 1 n) ≡ some n
unfolding padded
parse_u64-padded n h =
    let p = count_digits-positive 20 n in
    let e : max 1 (count_digits 20 n) ≡ count_digits 20 n = omega arith in
    rw e (parse_u64-fixed (count_digits 20 n) n p (count_digits-bound 20 n (omega arith)) h)

-- ===== src/Queue/Name/RoundTrip.antt =====
-- `entry_name` against `parse_entry_name` of agent/src/queue.rs.
use renga.Prelude.{
  ℕ, ◌*◌, ◌/◌, ◌^◌, ◌<◌, ◌≡◌, Bool, true, false, some, [], ◌∷◌, ◌++◌, arith, ◌==◌, All, take, none,
  suc, zero, ◌-◌, refl, length,
}
use mathlib.Core.List.{append_assoc}
use renga.Bytes.{Bytes, u64_mod, is_digit, fixed, split_once, strip_suffix}
use renga.Bytes.RoundTrip.{
  length-fixed, fixed-All_digits, padded-eq-fixed, parse_u64-fixed, split_once-append,
  strip_suffix-append,
}
use renga.Queue.Name.{
  nanos_per_second, entry_suffix, entry_name, parse_entry_name, parse_stem, temporary_prefix,
}

digit_not_dash : (xs : Bytes) → All (λ c. is_digit c ≡ true) xs → All (λ c. (c == b'-') ≡ false) xs
digit_not_dash [] a = tt
digit_not_dash (x ∷ xs) a = (ground arith, digit_not_dash xs a.1)

module _ (is_uuid : Bytes → Bool) where
  parse_stem-fixed :
      (q s : ℕ) (id : Bytes)
      → q < u64_mod
      → s < 10 ^ 12
      → is_uuid id ≡ true
      → parse_stem is_uuid (fixed 20 q ++ b'-' ∷ (fixed 12 s ++ b'-' ∷ id))
        ≡ some (q, s * nanos_per_second)
  unfolding parse_stem
  parse_stem-fixed q s id hq hs hid = ground (
    arith,
    split_once-append b'-' (fixed 20 q) (fixed 12 s ++ b'-' ∷ id)
        (digit_not_dash (fixed 20 q) (fixed-All_digits 20 q)),
    split_once-append b'-' (fixed 12 s) id (digit_not_dash (fixed 12 s) (fixed-All_digits 12 s)),
    length-fixed 20 q,
    length-fixed 12 s,
    parse_u64-fixed 12 s (omega arith) hs (omega arith),
    parse_u64-fixed 20 q (omega arith) (omega arith) hq,
  )

  -- An entry named for a 64-bit sequence, a time before the year 33658 and a valid ID parses back
  -- to that sequence and to that time in whole seconds.
  pub parse_entry_name-entry_name :
      (sequence queued_at : ℕ) (entry_id : Bytes)
      → sequence < u64_mod
      → queued_at / nanos_per_second < 10 ^ 12
      → is_uuid entry_id ≡ true
      → parse_entry_name is_uuid (entry_name sequence queued_at entry_id)
        ≡ some (sequence, queued_at / nanos_per_second * nanos_per_second)
  unfolding parse_entry_name entry_name
  parse_entry_name-entry_name q t id hq ht hid =
      let s = t / nanos_per_second in
      let e : fixed 20 q ++ b'-' ∷ (fixed 12 s ++ b'-' ∷ (id ++ entry_suffix))
          ≡ (fixed 20 q ++ b'-' ∷ (fixed 12 s ++ b'-' ∷ id)) ++ entry_suffix =
        simp append_assoc in
      rw
        (padded-eq-fixed 20 q (omega arith) (omega arith), padded-eq-fixed 12 s (omega arith) ht, e)
        (ground (
          arith,
          strip_suffix-append (fixed 20 q ++ b'-' ∷ (fixed 12 s ++ b'-' ∷ id)) entry_suffix,
          parse_stem-fixed q s id hq ht hid,
        ))

  stem_of_temporary :
      (n : ℕ) (x : Bytes) → parse_stem is_uuid (take n (temporary_prefix ++ x)) ≡ none
  unfolding parse_stem split_once
  stem_of_temporary zero x = refl
  stem_of_temporary (suc zero) x = refl
  stem_of_temporary (suc (suc zero)) x = refl
  stem_of_temporary (suc (suc (suc zero))) x = refl
  stem_of_temporary (suc (suc (suc (suc zero)))) x = refl
  stem_of_temporary (suc (suc (suc (suc (suc n))))) x = ground arith

  -- A temporary file is never taken for an entry.
  pub parse_entry_name-temporary :
      (x : Bytes) → parse_entry_name is_uuid (temporary_prefix ++ x) ≡ none
  unfolding parse_entry_name strip_suffix
  parse_entry_name-temporary x =
      ground (arith, stem_of_temporary (length (temporary_prefix ++ x) - length entry_suffix) x)

-- ===== src/Queue/Name/SortOrder.antt =====
-- The byte order of entry names: `entry_name` of agent/src/queue.rs.
use renga.Prelude.{
  ℕ, zero, suc, ◌+◌, ◌/◌, ◌%◌, ◌^◌, ◌<◌, ◌≡◌, refl, true, [], ◌∷◌, ◌++◌, arith, ltb, inl, inr,
  Bool-cases,
}
use native.Mathlib.Nat.{pow-suc}
use mathlib.Core.List.{append_assoc}
use renga.Bytes.{Bytes, u64_mod, fixed, bytes_ltb}
use renga.Bytes.RoundTrip.{padded-eq-fixed}
use renga.Queue.Name.{entry_name}

bytes_ltb-prefix : (zs xs ys : Bytes) → bytes_ltb (zs ++ xs) (zs ++ ys) ≡ bytes_ltb xs ys
unfolding bytes_ltb
bytes_ltb-prefix [] xs ys = refl
bytes_ltb-prefix (z ∷ zs) xs ys = ground (arith, bytes_ltb-prefix zs xs ys)

bytes_ltb-fixed :
    (w a b : ℕ) (xs ys : Bytes)
    → a < b
    → b < 10 ^ w
    → bytes_ltb (fixed w a ++ xs) (fixed w b ++ ys) ≡ true
unfolding fixed
bytes_ltb-fixed zero a b xs ys h k = absurd (omega arith)
bytes_ltb-fixed (suc w) a b xs ys h k =
    rw
      (
        append_assoc (fixed w (a / 10)) ((b'0' + a % 10) ∷ []) xs,
        append_assoc (fixed w (b / 10)) ((b'0' + b % 10) ∷ []) ys,
      )
      (elim (Bool-cases (ltb (a / 10) (b / 10))) [
        | inl less ↦
            bytes_ltb-fixed w (a / 10) (b / 10) _ _ (ground arith) (omega (arith, pow-suc 10 w))
        | inr same ↦
            let e : a / 10 ≡ b / 10 = ground arith in
            rw (e, bytes_ltb-prefix (fixed w (b / 10))) (unfold bytes_ltb in ground arith)
      ])

-- Of two entries with 64-bit sequences, the one queued earlier has the smaller file name, whatever
-- their times and IDs.
entry_name_sorts :
    (q r s t : ℕ) (id id' : Bytes)
    → q < r
    → r < u64_mod
    → bytes_ltb (entry_name q s id) (entry_name r t id') ≡ true
unfolding entry_name
entry_name_sorts q r s t id id' h k =
    rw
      (
        padded-eq-fixed 20 q (omega arith) (omega arith),
        padded-eq-fixed 20 r (omega arith) (omega arith),
      )
      (bytes_ltb-fixed 20 q r _ _ h (omega arith))

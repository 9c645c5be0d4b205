-- ===== src/Osquery/Lossy.antt =====
-- `String::from_utf8_lossy`, with which agent/src/osquery/thrift.rs reads text. Text that is UTF-8 is
-- left as it is; each part that can begin no character is replaced.
use renga.Prelude.{
  ℕ, zero, suc, Bool, true, ◌&&◌, ◌||◌, [], ◌∷◌, ◌++◌, ◌≡◌, refl, ap, ◌∙◌, ◌==◌, if◌then◌else◌,
  length, take, drop, take-append-drop, Bool-cases, inl, inr, arith,
}
use renga.Bytes.{Bytes}
use renga.Smbios.Text.{character, valid_utf8, between, is_continuation}

-- U+FFFD
abbrev replacement : Bytes
replacement = 239 ∷ 191 ∷ 189 ∷ []

-- Whether `b` may follow `a` in a character of three bytes, or of four.
abbrev opens_three : ℕ → ℕ → Bool
opens_three a b =
    (a == 224 && between 160 191 b)
    || (between 225 236 a && is_continuation b)
    || (a == 237 && between 128 159 b)
    || (between 238 239 a && is_continuation b)

abbrev opens_four : ℕ → ℕ → Bool
opens_four a b =
    (a == 240 && between 144 191 b)
    || (between 241 243 a && is_continuation b)
    || (a == 244 && between 128 143 b)

-- How many bytes one replacement stands for: the longest start of a character, or one byte.
unfoldable pub invalid_length : Bytes → ℕ
invalid_length (a ∷ b ∷ c ∷ _) =
    if opens_four a b && is_continuation c
    then 3
    else if opens_four a b || opens_three a b
    then 2
    else 1
invalid_length (a ∷ b ∷ []) = if opens_four a b || opens_three a b then 2 else 1
invalid_length _ = 1

-- One round for each byte is enough.
unfoldable pub lossy : ℕ → Bytes → Bytes
lossy fuel [] = []
lossy zero (a ∷ s) = []
lossy (suc fuel) (a ∷ s) =
    let n = character (a ∷ s) in
    let kept = take n (a ∷ s) ++ lossy fuel (drop n (a ∷ s)) in
    let replaced = replacement ++ lossy fuel (drop (invalid_length (a ∷ s)) (a ∷ s)) in
    if n == 0 then replaced else kept

unfoldable pub from_utf8_lossy : Bytes → Bytes
unfolding lossy
from_utf8_lossy s = lossy (length s) s

lossy-valid : (fuel : ℕ) (s : Bytes) → valid_utf8 fuel s ≡ true → lossy fuel s ≡ s
unfolding lossy valid_utf8
lossy-valid fuel [] h = refl
lossy-valid zero (a ∷ s) h = cc
lossy-valid (suc fuel) (a ∷ s) h = elim (Bool-cases (character (a ∷ s) == 0)) [
  | inl bad ↦ ground (arith, bad, h)
  | inr good ↦
      let n = character (a ∷ s) in
      let rest : valid_utf8 fuel (drop n (a ∷ s)) ≡ true = ground (arith, good, h) in
      rw good (
        ap (λ t. take n (a ∷ s) ++ t) (lossy-valid fuel (drop n (a ∷ s)) rest)
        ∙ take-append-drop n (a ∷ s))
]

pub from_utf8_lossy-valid : (s : Bytes) → valid_utf8 (length s) s ≡ true → from_utf8_lossy s ≡ s
unfolding from_utf8_lossy
from_utf8_lossy-valid s h = lossy-valid (length s) s h

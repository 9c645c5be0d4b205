-- ===== src/Queries/Statement/Tokens.antt =====
-- The tokens of a text, as agent/src/jobs/queries/sql.rs reads them, and what they spell.
use mathlib.Core.List.{append_assoc}
use renga.Prelude.{
  ℕ, zero, suc, ◌+◌, ◌≤◌, ◌≡◌, refl, sym, ap, ◌∙◌, Bool, true, false, List, [], ◌∷◌, ◌++◌, length,
  take, drop, take-append-drop, arith,
}
use renga.Bytes.{Bytes}
use renga.Queries.Statement.{starts, closing, Kind, separator, parameter, token, ignorable}

-- The text as SQLite's tokens, as far as statements go: each with the bytes that it takes.
unfoldable pub tokens : ℕ → Bytes → List (Kind × Bytes)
tokens fuel [] = []
tokens zero (c ∷ s) = []
tokens (suc fuel) (c ∷ s) =
    let (kind, n) = token c s in (kind, take n (c ∷ s)) ∷ tokens fuel (drop n (c ∷ s))

abbrev pub spelled : List (Kind × Bytes) → Bytes
spelled [] = []
spelled ((_, s) ∷ ts) = s ++ spelled ts

-- A part of a statement, other than the end of one or a parameter.
abbrev pub plain : Kind × Bytes → Bool
plain (separator, _) = false
plain (parameter, _) = false
plain _ = true

abbrev pub is_ignorable : Kind × Bytes → Bool
is_ignorable (k, _) = ignorable k

pub token-pos : (c : ℕ) (s : Bytes) → 1 ≤ (token c s).1
unfolding token
token-pos c s = ground arith

pub spelled-append : (xs ys : List (Kind × Bytes)) → spelled (xs ++ ys) ≡ spelled xs ++ spelled ys
spelled-append [] ys = refl
spelled-append ((k, s) ∷ xs) ys =
    ap (λ t. s ++ t) (spelled-append xs ys) ∙ sym (append_assoc s (spelled xs) (spelled ys))

length-drop-suc : (n : ℕ) (c : ℕ) (s : Bytes) → 1 ≤ n → length (drop n (c ∷ s)) ≤ length s
length-drop-suc zero c s h = absurd (omega arith)
length-drop-suc (suc n) c s h = length-drop-le n s
  where
    length-drop-le : (n : ℕ) (s : Bytes) → length (drop n s) ≤ length s
    length-drop-le zero s = omega arith
    length-drop-le (suc n) [] = omega arith
    length-drop-le (suc n) (x ∷ s) = omega (arith, length-drop-le n s)

pub spelled-tokens : (fuel : ℕ) (s : Bytes) → length s ≤ fuel → spelled (tokens fuel s) ≡ s
unfolding tokens
spelled-tokens zero [] h = refl
spelled-tokens zero (c ∷ s) h = absurd (omega arith)
spelled-tokens (suc fuel) [] h = refl
spelled-tokens (suc fuel) (c ∷ s) h =
    let n = (token c s).1 in
    ap (λ t. take n (c ∷ s) ++ t)
      (spelled-tokens fuel (drop n (c ∷ s)) (omega (arith, length-drop-suc n c s (token-pos c s))))
    ∙ take-append-drop n (c ∷ s)

starts-length : (p s : Bytes) → starts p s ≡ true → length p ≤ length s
starts-length [] s h = omega arith
starts-length (p ∷ ps) [] h = cc
starts-length (p ∷ ps) (c ∷ s) h = ground (arith, starts-length ps s)

closing-le : (t s : Bytes) → closing t s ≤ length s
unfolding closing
closing-le t [] = omega arith
closing-le t (c ∷ s) = ground (arith, starts-length t (c ∷ s), closing-le t s)

-- A comment begins with two bytes.
two_bytes :
    (p : ℕ) (t s : Bytes) → starts (p ∷ []) s ≡ true → 2 + closing t (drop 1 s) ≤ suc (length s)
two_bytes p t [] h = cc
two_bytes p t (c ∷ s) h = omega (arith, closing-le t s)

pub token-le : (c : ℕ) (s : Bytes) → (token c s).1 ≤ suc (length s)
unfolding token
token-le c s = ground (
  arith,
  two_bytes b'-' (10 ∷ []) s,
  two_bytes b'*' (b'*' ∷ b'/' ∷ []) s,
  closing-le (c ∷ []) s,
  closing-le (b']' ∷ []) s,
)

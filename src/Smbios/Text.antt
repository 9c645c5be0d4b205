-- ===== src/Smbios/Text.antt =====
-- Text from untrusted bytes: `std::str::from_utf8`, `str::trim` and `normalize_value` of
-- agent/src/collectors/mod.rs. Text is its UTF-8 bytes.
use renga.Prelude.{
  ℕ, zero, suc, ◌+◌, Bool, true, false, ◌&&◌, ◌||◌, Option, none, some, List, [], ◌∷◌, ltb, leb,
  ◌==◌, if◌then◌else◌, length, drop, any, map,
}
use renga.Bytes.{Bytes, bytes_eq}

abbrev pub between : ℕ → ℕ → ℕ → Bool
between low high c = leb low c && leb c high

abbrev pub is_continuation : ℕ → Bool
is_continuation = between 128 191

-- How many bytes the character at the front has, or 0 if there is no valid one.
unfoldable pub character : Bytes → ℕ
character [] = 0
character (a ∷ []) = if ltb a 128 then 1 else 0
character (a ∷ b ∷ []) =
    if ltb a 128 then 1 else if between 194 223 a && is_continuation b then 2 else 0
character (a ∷ b ∷ c ∷ []) =
    if ltb a 128
    then 1
    else if between 194 223 a && is_continuation b
    then 2
    else if is_continuation c
        && ((a == 224 && between 160 191 b)
            || (between 225 236 a && is_continuation b)
            || (a == 237 && between 128 159 b)
            || (between 238 239 a && is_continuation b))
    then 3
    else 0
character (a ∷ b ∷ c ∷ d ∷ _) =
    if ltb a 128
    then 1
    else if between 194 223 a && is_continuation b
    then 2
    else if is_continuation c
        && ((a == 224 && between 160 191 b)
            || (between 225 236 a && is_continuation b)
            || (a == 237 && between 128 159 b)
            || (between 238 239 a && is_continuation b))
    then 3
    else if is_continuation c
        && is_continuation d
        && ((a == 240 && between 144 191 b)
            || (between 241 243 a && is_continuation b)
            || (a == 244 && between 128 143 b))
    then 4
    else 0

-- One round for each byte is enough.
unfoldable pub valid_utf8 : ℕ → Bytes → Bool
valid_utf8 fuel [] = true
valid_utf8 zero (_ ∷ _) = false
valid_utf8 (suc fuel) (a ∷ s) =
    let n = character (a ∷ s) in
    let rest = valid_utf8 fuel (drop n (a ∷ s)) in if n == 0 then false else rest

-- How many bytes the white space at the front has (Unicode's White_Space), or 0.
unfoldable pub space : Bytes → ℕ
space [] = 0
space (a ∷ []) = if between 9 13 a || a == 32 then 1 else 0
space (a ∷ b ∷ []) =
    if between 9 13 a || a == 32 then 1 else if a == 194 && (b == 133 || b == 160) then 2 else 0
space (a ∷ b ∷ c ∷ _) =
    if between 9 13 a || a == 32
    then 1
    else if a == 194 && (b == 133 || b == 160)
    then 2
    else if (a == 225 && b == 154 && c == 128)
        || (a == 226 && b == 128 && (between 128 138 c || c == 168 || c == 169 || c == 175))
        || (a == 226 && b == 129 && c == 159)
        || (a == 227 && b == 128 && c == 128)
    then 3
    else 0

unfoldable pub trim_start : ℕ → Bytes → Bytes
trim_start zero s = s
trim_start (suc fuel) s =
    let n = space s in let rest = trim_start fuel (drop n s) in if n == 0 then s else rest

unfoldable pub is_blank : ℕ → Bytes → Bool
is_blank fuel s = elim (trim_start fuel s) [ [] ↦ true | _ ∷ _ ↦ false ]

-- Up to the place from which on there is only white space; the text is valid, so that a
-- continuation byte starts no white space.
unfoldable pub trim_end : Bytes → Bytes
unfolding is_blank
trim_end [] = []
trim_end (a ∷ s) = if is_blank (suc (length s)) (a ∷ s) then [] else a ∷ trim_end s

unfoldable pub trim : Bytes → Bytes
unfolding trim_end
trim s = trim_end (trim_start (length s) s)

unfoldable pub to_ascii_lowercase : Bytes → Bytes
to_ascii_lowercase = map (λ c. if between b'A' b'Z' c then c + 32 else c)

-- What firmware writes where it has nothing to say.
abbrev placeholders : List Bytes
placeholders =
    (b'n' ∷ b'o' ∷ b'n' ∷ b'e' ∷ [])
    ∷ (b'u' ∷ b'n' ∷ b'k' ∷ b'n' ∷ b'o' ∷ b'w' ∷ b'n' ∷ [])
    ∷ (b'n' ∷ b'o' ∷ b't' ∷ b' ' ∷ b's' ∷ b'p' ∷ b'e' ∷ b'c' ∷ b'i' ∷ b'f' ∷ b'i' ∷ b'e' ∷ b'd'
        ∷ [])
    ∷ (b'n' ∷ b'o' ∷ b't' ∷ b' ' ∷ b'a' ∷ b'p' ∷ b'p' ∷ b'l' ∷ b'i' ∷ b'c' ∷ b'a' ∷ b'b' ∷ b'l'
        ∷ b'e' ∷ [])
    ∷ (b't' ∷ b'o' ∷ b' ' ∷ b'b' ∷ b'e' ∷ b' ' ∷ b'f' ∷ b'i' ∷ b'l' ∷ b'l' ∷ b'e' ∷ b'd' ∷ b' '
        ∷ b'b' ∷ b'y' ∷ b' ' ∷ b'o' ∷ b'.' ∷ b'e' ∷ b'.' ∷ b'm' ∷ b'.' ∷ [])
    ∷ (b'd' ∷ b'e' ∷ b'f' ∷ b'a' ∷ b'u' ∷ b'l' ∷ b't' ∷ b' ' ∷ b's' ∷ b't' ∷ b'r' ∷ b'i' ∷ b'n'
        ∷ b'g' ∷ [])
    ∷ []

unfoldable pub normalize_value : Bytes → Option Bytes
unfolding trim to_ascii_lowercase
normalize_value value =
    let text = trim value in
    let lower = to_ascii_lowercase text in
    elim text [
      | [] ↦ none
      | c ∷ cs ↦ if any (bytes_eq lower) placeholders then none else some (c ∷ cs)
    ]

-- ===== src/Exporters/Text/Labels.antt =====
-- The labels of a series are read back: `labels` of agent/src/exporters/text.rs.
use renga.Prelude.{
  ℕ, zero, suc, ◌+◌, ◌≤◌, ◌<◌, ◌≡◌, refl, ap, ◌∙◌, Bool, true, false, ◌&&◌, ◌||◌, not, none, some,
  [], ◌∷◌, ◌++◌, all, any, All, ◌==◌, if◌then◌else◌, length, length-append, ok, Bool-cases, inl,
  inr, arith,
}
use renga.Bytes.{Bytes, split_once}
use renga.Bytes.Dictionary.{Dictionary, insert, collect, length-insert}
use renga.Smbios.Text.{trim, trim_start, trim_end, is_blank, space}
use renga.Exporters.Text.{
  valid_name, valid_label_name, continues_name, strip, without, quoted, push, label, label_value,
  after_label, label_each, labels,
}

unfoldable pub escape : Bytes → Bytes
escape [] = []
escape (c ∷ s) =
    if c == 10
    then 92 ∷ b'n' ∷ escape s
    else if c == 92 || c == 34
    then 92 ∷ c ∷ escape s
    else c ∷ escape s

-- The labels as an exporter prints them, after the opening brace, with `rest` after the closing one.
unfoldable pub print_labels : Dictionary → Bytes → Bytes
print_labels [] rest = b'}' ∷ rest
print_labels ((name, value) ∷ ls) rest =
    name ++ b'=' ∷ (34 ∷ (escape value ++ 34 ∷ (b',' ∷ print_labels ls rest)))

quoted-push :
    (c : ℕ) (s value rest : Bytes)
    → (c == 34) ≡ false
    → (c == 92) ≡ false
    → quoted s ≡ ok (value, rest)
    → quoted (c ∷ s) ≡ ok (c ∷ value, rest)
unfolding quoted
quoted-push c [] value rest h k e = cc
quoted-push c (d ∷ s) value rest h k e = rw (h, k, quoted) (ap (push c) e)

quoted-newline : (s : Bytes) → quoted (92 ∷ b'n' ∷ s) ≡ push 10 (quoted s)
unfolding quoted
quoted-newline s = refl

quoted-same :
    (e : ℕ) (s : Bytes) → (e == 92 || e == 34) ≡ true → quoted (92 ∷ e ∷ s) ≡ push e (quoted s)
unfolding quoted
quoted-same e s h = ground arith

quoted-escape : (value rest : Bytes) → quoted (escape value ++ 34 ∷ rest) ≡ ok (value, rest)
unfolding escape
quoted-escape [] [] = unfold quoted in refl
quoted-escape [] (r ∷ rest) = unfold quoted in refl
quoted-escape (c ∷ s) rest =
    let more : quoted (escape s ++ 34 ∷ rest) ≡ ok (s, rest) = quoted-escape s rest in
    elim (Bool-cases (c == 10)) [
      | inl newline ↦ rw newline (
          quoted-newline (escape s ++ 34 ∷ rest)
          ∙ ap (push 10) more
          ∙ ap (λ c. ok (c ∷ s, rest)) (ground arith))
      | inr no_newline ↦ elim (Bool-cases (c == 92 || c == 34)) [
        | inl special ↦
            rw (no_newline, special)
              (quoted-same c (escape s ++ 34 ∷ rest) special ∙ ap (push c) more)
        | inr other ↦
            rw (no_newline, other)
              (quoted-push c (escape s ++ 34 ∷ rest) s rest (ground arith) (ground arith) more)
      ]
    ]

space-zero : (c : ℕ) (s : Bytes) → 32 < c → c < 128 → space (c ∷ s) ≡ 0
unfolding space
space-zero c [] h k = ground arith
space-zero c (d ∷ []) h k = ground arith
space-zero c (d ∷ e ∷ s) h k = ground arith

trim_start-id : (fuel c : ℕ) (s : Bytes) → 32 < c → c < 128 → trim_start fuel (c ∷ s) ≡ c ∷ s
unfolding trim_start
trim_start-id zero c s h k = refl
trim_start-id (suc fuel) c s h k = rw (space-zero c s h k, trim_start)

continues_name-range :
    (c : ℕ)
    → continues_name c ≡ true
    → (32 < c) × (c < 128) × ((c == b'=') ≡ false) × ((c == b'}') ≡ false)
continues_name-range c h = ground arith

both : (a b : Bool) → (a && b) ≡ true → (a ≡ true) × (b ≡ true)
both a b h = ground arith

trim_end-id : (s : Bytes) → all continues_name s ≡ true → trim_end s ≡ s
unfolding trim_end is_blank
trim_end-id [] h = refl
trim_end-id (c ∷ s) h =
    let name = both (continues_name c) (all continues_name s) h in
    let range = continues_name-range c name.0 in
    rw (trim_start-id (suc (length s)) c s range.0 range.1, is_blank)
      (ap (λ t. c ∷ t) (trim_end-id s name.1))

split_name-equals :
    (name after : Bytes)
    → all continues_name name ≡ true
    → split_once b'=' (name ++ b'=' ∷ after) ≡ some (name, after)
unfolding split_once
split_name-equals [] after h = refl
split_name-equals (c ∷ s) after h =
    ground (arith, split_name-equals s after, continues_name-range c)

name_chars : (name : Bytes) → valid_name name ≡ true → all continues_name name ≡ true
unfolding valid_name
name_chars [] h = cc
name_chars (c ∷ s) h = ground arith

trim-id : (name : Bytes) → valid_name name ≡ true → trim name ≡ name
unfolding trim
trim-id [] h = unfold valid_name in cc
trim-id (c ∷ s) h =
    let chars = name_chars (c ∷ s) h in
    let range = continues_name-range c (both (continues_name c) (all continues_name s) chars).0 in
    ap trim_end (trim_start-id (length (c ∷ s)) c s range.0 range.1) ∙ trim_end-id (c ∷ s) chars

-- A label as it is printed, with what follows its comma.
label-printed :
    (name value rest : Bytes)
    → valid_label_name name ≡ true
    → label (name ++ b'=' ∷ (34 ∷ (escape value ++ 34 ∷ (b',' ∷ rest)))) ≡ ok (name, value, rest)
unfolding label label_value
label-printed name value rest h =
    let tail = b',' ∷ rest in
    let body = escape value ++ 34 ∷ tail in
    let valid = (both (valid_name name) (not (any (λ c. c == b':') name)) h).0 in
    let trimmed = trim-id name valid in
    let comma : after_label tail ≡ rest =
      ap (without b',') (trim_start-id (length tail) b',' rest (omega arith) (omega arith)) in
    rw
      (
        split_name-equals name (34 ∷ body) (name_chars name valid),
        trimmed,
        h,
        trim_start-id (length (34 ∷ body)) 34 body (omega arith) (omega arith),
        quoted-escape value tail,
      )
      (ap (λ r. ok (name, value, r)) comma)

-- A printed label begins with its name, which is neither a space nor the closing brace.
label_opens :
    (name after : Bytes)
    → valid_label_name name ≡ true
    → let text = name ++ b'=' ∷ after in
      (trim_start (length text) text ≡ text) × (strip b'}' text ≡ none)
label_opens [] after h = unfold valid_name in cc
label_opens (c ∷ s) after h =
    let valid = (both (valid_name (c ∷ s)) (not (any (λ c. c == b':') (c ∷ s))) h).0 in
    let chars = name_chars (c ∷ s) valid in
    let range = continues_name-range c (both (continues_name c) (all continues_name s) chars).0 in
    let text = c ∷ (s ++ b'=' ∷ after) in
    (trim_start-id (length text) c (s ++ b'=' ∷ after) range.0 range.1, rw range.3)

label_each-closed :
    (fuel max_labels : ℕ) (m : Dictionary) (text rest : Bytes)
    → trim_start (length text) text ≡ b'}' ∷ rest
    → label_each (suc fuel) max_labels m text ≡ ok (m, rest)
unfolding label_each
label_each-closed fuel max_labels m text rest h = ground (arith, h)

label_each-next :
    (fuel max_labels : ℕ) (m : Dictionary) (text name value more : Bytes)
    → strip b'}' (trim_start (length text) text) ≡ none
    → label (trim_start (length text) text) ≡ ok (name, value, more)
    → (length m == max_labels) ≡ false
    → label_each (suc fuel) max_labels m text
      ≡ label_each fuel max_labels (insert name value m) more
unfolding label_each
label_each-next fuel max_labels m text name value more s l r = rw (s, l, r, label_each)

label_each-printed :
    (ls m : Dictionary) (fuel max_labels : ℕ) (rest : Bytes)
    → All (λ l. valid_label_name l.0 ≡ true) ls
    → length m + length ls ≤ max_labels
    → length ls < fuel
    → label_each fuel max_labels m (print_labels ls rest) ≡ ok (collect m ls, rest)
unfolding print_labels collect
label_each-printed ls m zero max_labels rest v b f = elim f [ ]
label_each-printed [] m (suc fuel) max_labels rest v b f =
    let text = b'}' ∷ rest in
    label_each-closed fuel max_labels m text rest
      (trim_start-id (length text) b'}' rest (omega arith) (omega arith))
label_each-printed ((name, value) ∷ ls) m (suc fuel) max_labels rest v b f =
    let tail = print_labels ls rest in
    let opens = label_opens name (34 ∷ (escape value ++ 34 ∷ (b',' ∷ tail))) v.0 in
    let room : (length m == max_labels) ≡ false = ground arith in
    let small = length-insert name value m in
    label_each-next fuel max_labels m (print_labels ((name, value) ∷ ls) rest) name value tail
      (ap (strip b'}') opens.0 ∙ opens.1) (ap label opens.0 ∙ label-printed name value tail v.0)
      room
    ∙ (label_each-printed ls (insert name value m) fuel max_labels rest v.1 (omega (arith, small))
        (omega arith))

length-print_labels : (ls : Dictionary) (rest : Bytes) → length ls < length (print_labels ls rest)
unfolding print_labels
length-print_labels [] rest = omega arith
length-print_labels ((name, value) ∷ ls) rest =
    let tail = print_labels ls rest in
    omega (
      arith,
      length-append name (b'=' ∷ (34 ∷ (escape value ++ 34 ∷ (b',' ∷ tail)))),
      length-append (escape value) (34 ∷ (b',' ∷ tail)),
      length-print_labels ls rest,
    )

-- Labels with valid names and any values, as many as are allowed, are read back as they were printed,
-- with the escapes of quotes, backslashes and line ends, of two of the same name the later one; and
-- what follows the closing brace is left.
pub labels-print_labels :
    (ls : Dictionary) (max_labels : ℕ) (rest : Bytes)
    → All (λ l. valid_label_name l.0 ≡ true) ls
    → length ls ≤ max_labels
    → labels (print_labels ls rest) max_labels ≡ ok (collect [] ls, rest)
unfolding labels
labels-print_labels ls max_labels rest v b =
    label_each-printed ls [] (suc (length (print_labels ls rest))) max_labels rest v (omega arith)
      (omega (arith, length-print_labels ls rest))

-- ===== src/Jobs/Catalog/Keys.antt =====
-- Capability keys of agent/src/jobs/mod.rs: what `CapabilityKey::parse` accepts.
use renga.Prelude.{
  ℕ, ◌^◌, ◌<◌, ◌≡◌, refl, inl, inr, Bool, true, false, ◌&&◌, none, some, List, [], ◌∷◌, ltb, ◌==◌,
  if◌then◌else◌, all, arith, Bool-cases, Option-cases, All,
}
use renga.Bytes.{Bytes, bytes_eq, parse_u64, split_once, split}
use renga.Bytes.Equality.{bytes_eq_sound, bytes_eq_refl, split_once_sound, parse_u64-padded}
use renga.Bytes.RoundTrip.{split_once-append}
use renga.Jobs.Catalog.{
  CapabilityKey, decimal, show_key, parse_u32, is_name_byte, valid_segment, valid_name, parse_key,
}

parse_u32-bound : (s : Bytes) (n : ℕ) → parse_u32 s ≡ some n → n < 2 ^ 32
unfolding parse_u32
parse_u32-bound s n h = elim (Option-cases (parse_u64 s)) [
  | inl e ↦ absurd (ground arith)
  | inr (m, e) ↦ ground arith
]

-- The last test of `parse`.
accepted_key :
    (name raw : Bytes) (v : ℕ) (k : CapabilityKey)
    → (if ltb 0 v && valid_name name && bytes_eq (decimal v) raw
        then some (record { name = name; version = v })
        else none)
      ≡ some k
    → (k ≡ record { name = name; version = v })
      × (decimal v ≡ raw)
      × (valid_name name ≡ true)
      × (0 < v)
accepted_key name raw v k h = elim (Bool-cases (valid_name name)) [
  | inl n ↦ elim (Bool-cases (bytes_eq (decimal v) raw)) [
    | inl e ↦ (ground arith, bytes_eq_sound (decimal v) raw e, n, ground arith)
    | inr e ↦ absurd (ground arith)
  ]
  | inr n ↦ absurd (ground arith)
]

-- A key that is accepted has a valid name and a version from 1 to the largest 32-bit number, and it
-- is printed as exactly the text that was parsed: no two texts are the same key.
pub parse_key_sound :
    (s : Bytes) (k : CapabilityKey)
    → parse_key s ≡ some k
    → (show_key k ≡ s) × (valid_name k.name ≡ true) × (0 < k.version) × (k.version < 2 ^ 32)
unfolding parse_key show_key
parse_key_sound s k h = elim (Option-cases (split_once b'@' s)) [
  | inl e ↦ absurd (ground arith)
  | inr ((name, raw), e) ↦ elim (Option-cases (parse_u32 raw)) [
    | inl e' ↦ absurd (ground arith)
    | inr (v, e') ↦
        let (ek, ed, en, ev) = accepted_key name raw v k (ground (arith, h, e, e')) in
        let parts = split_once_sound b'@' s name raw e in
        let bound = parse_u32-bound raw v e' in rw ek (cc (ed, parts), en, ev, bound)
  ]
]

name_bytes : List Bytes → Bool
name_bytes = all (all is_name_byte)

valid_segments-name_bytes : (ss : List Bytes) → all valid_segment ss ≡ true → name_bytes ss ≡ true
unfolding name_bytes valid_segment
valid_segments-name_bytes [] h = refl
valid_segments-name_bytes ([] ∷ ss) h = absurd (ground arith)
valid_segments-name_bytes ((c ∷ cs) ∷ ss) h = ground (arith, valid_segments-name_bytes ss)

-- No byte of a name's segments is the separator of a key.
split-no_at : (s : Bytes) → name_bytes (split b'.' s) ≡ true → All (λ c. (c == b'@') ≡ false) s
unfolding split name_bytes
split-no_at [] h = tt
split-no_at (c ∷ cs) h = elim (Bool-cases (c == b'.')) [
  | inl e ↦ (ground arith, split-no_at cs (ground (arith, h)))
  | inr e ↦ go (split b'.' cs) refl (split-no_at cs)
]
  where
    go :
        (ss : List Bytes)
        → split b'.' cs ≡ ss
        → (name_bytes (split b'.' cs) ≡ true → All (λ x. (x == b'@') ≡ false) cs)
        → All (λ x. (x == b'@') ≡ false) (c ∷ cs)
    go [] k tail = (ground (arith, h), tail (ground (arith, k)))
    go (t ∷ ts) k tail = (ground (arith, h), tail (ground (arith, h, k)))

valid_name-no_at : (s : Bytes) → valid_name s ≡ true → All (λ c. (c == b'@') ≡ false) s
unfolding valid_name
valid_name-no_at s h = split-no_at s (valid_segments-name_bytes (split b'.' s) (ground (arith, h)))

-- A key with a valid name and a version from 1 to the largest 32-bit number, printed, parses back.
parse_key-show_key :
    (k : CapabilityKey)
    → valid_name k.name ≡ true
    → 0 < k.version
    → k.version < 2 ^ 32
    → parse_key (show_key k) ≡ some k
unfolding parse_key show_key parse_u32
parse_key-show_key k hn hv hb = ground (
  arith,
  split_once-append b'@' k.name (decimal k.version) (valid_name-no_at k.name hn),
  parse_u64-padded k.version (omega arith),
  bytes_eq_refl (decimal k.version),
)

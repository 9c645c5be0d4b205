-- ===== src/Smbios/Walk.antt =====
-- The walk of agent/src/smbios/table.rs over untrusted bytes: its steps and its end.
use renga.Prelude.{
  ℕ, zero, suc, ◌+◌, ◌-◌, ◌≤◌, ◌<◌, ◌≡◌, refl, ap, inl, inr, ◌&&◌, ◌||◌, none, some, [], ◌∷◌, ltb,
  leb, ◌==◌, length, drop, arith, Bool-cases, Option-cases,
}
use renga.Bytes.{Bytes}
use renga.Smbios.Table.{Record, first_double, parse_record, next, records, end_of_table}

length-drop : (n : ℕ) (s : Bytes) → length (drop n s) ≡ length s - n
length-drop zero s = omega arith
length-drop (suc n) [] = omega arith
length-drop (suc n) (x ∷ s) = omega (arith, length-drop n s)

first_double-bound : (s : Bytes) (n : ℕ) → first_double s ≡ some n → n + 2 ≤ length s
unfolding first_double
first_double-bound [] n h = cc
first_double-bound (x ∷ []) n h = cc
first_double-bound (x ∷ y ∷ s) n h = elim (Bool-cases (x == 0 && y == 0)) [
  | inl e ↦ ground (arith, h, e)
  | inr e ↦ elim (Option-cases (first_double (y ∷ s))) [
    | inl k ↦ absurd (ground (arith, h, e, k))
    | inr (m, k) ↦ ground (arith, h, e, k, first_double-bound (y ∷ s) m k)
  ]
]

parse_record-size :
    (s : Bytes) (r : Record) (n : ℕ) → parse_record s ≡ some (r, n) → (6 ≤ n) × (n ≤ length s)
unfolding parse_record
parse_record-size [] r n h = cc
parse_record-size (x ∷ []) r n h = cc
parse_record-size (kind ∷ len ∷ more) r n h =
    elim (Bool-cases (ltb len 4 || kind == end_of_table || ltb (length (kind ∷ len ∷ more)) len)) [
      | inl e ↦ absurd (ground (arith, h, e))
      | inr e ↦ elim (Option-cases (first_double (drop len (kind ∷ len ∷ more)))) [
        | inl k ↦ absurd (ground (arith, h, e, k))
        | inr (m, k) ↦
            let b = first_double-bound (drop len (kind ∷ len ∷ more)) m k in
            let l = length-drop len (kind ∷ len ∷ more) in
            let size : len + m + 2 ≡ n = ground (arith, h, e, k) in
            let long : 4 ≤ len = ground (arith, e) in
            let fits : len ≤ length (kind ∷ len ∷ more) = ground (arith, e) in
            (omega (arith, size, long), omega (arith, size, b, l, fits))
      ]
    ]

-- A record that is read takes at least six bytes and ends within the table.
next_advances :
    (table : Bytes) (offset after : ℕ) (r : Record)
    → next table offset ≡ some (r, after)
    → (offset + 6 ≤ after) × (after ≤ length table)
unfolding next
next_advances table offset after r h = elim (Bool-cases (leb offset (length table))) [
  | inr e ↦ absurd (ground (arith, h, e))
  | inl e ↦ elim (Option-cases (parse_record (drop offset table))) [
    | inl k ↦ absurd (ground (arith, h, e, k))
    | inr ((x, n), k) ↦
        let (a, b) = parse_record-size (drop offset table) x n k in
        let l = length-drop offset table in
        let size : offset + n ≡ after = ground (arith, h, e, k) in
        let inside : offset ≤ length table = ground (arith, e) in
        (omega (arith, size, a), omega (arith, size, b, l, inside))
  ]
]

-- The walk ends by itself: any more rounds than there are bytes left find no further record.
pub records_complete :
    (fuel more offset : ℕ) (table : Bytes)
    → length table < fuel + offset
    → fuel ≤ more
    → records more table offset ≡ records fuel table offset
unfolding records
records_complete zero zero offset table h l = refl
records_complete zero (suc more) offset table h l =
    let none_left : next table offset ≡ none = unfold next in ground (arith, h) in
    rw (records, none_left) refl
records_complete (suc fuel) zero offset table h l = absurd (omega (arith, l))
records_complete (suc fuel) (suc more) offset table h l = elim (Option-cases (next table offset)) [
  | inl e ↦ rw (records, e) refl
  | inr ((r, after), e) ↦
      let (a, _) = next_advances table offset after r e in
      rw (records, e)
        (ap (λ rs. r ∷ rs)
          (records_complete fuel more after table (omega (arith, h, a)) (omega (arith, l))))
]

-- ===== src/Smbios/Table.antt =====
-- The walk over the structure table: `Records` of agent/src/smbios/table.rs.
use renga.Prelude.{
  ℕ, zero, suc, ◌+◌, ◌&&◌, ◌||◌, Option, none, some, List, [], ◌∷◌, ltb, leb, ◌==◌, if◌then◌else◌,
  length, take, drop,
}
use renga.Bytes.{Bytes, split}

pub record Record : Type 0 where
  pub kind : ℕ
  pub formatted : Bytes
  pub strings : List Bytes

abbrev pub end_of_table : ℕ
end_of_table = 127

-- `windows(2).position(|pair| pair == [0, 0])`
unfoldable pub first_double : Bytes → Option ℕ
first_double [] = none
first_double (_ ∷ []) = none
first_double (x ∷ y ∷ s) =
    if x == 0 && y == 0
    then some 0
    else elim (first_double (y ∷ s)) [ none ↦ none | some n ↦ some (suc n) ]

unfoldable pub strings_of : Bytes → ℕ → List Bytes
strings_of unformatted end = if end == 0 then [] else split 0 (take end unformatted)

-- The record at the front, and how many bytes it takes.
unfoldable pub parse_record : Bytes → Option (Record × ℕ)
unfolding strings_of
parse_record [] = none
parse_record (_ ∷ []) = none
parse_record (kind ∷ len ∷ more) =
    if ltb len 4 || kind == end_of_table || ltb (length (kind ∷ len ∷ more)) len
    then none
    else (let unformatted = drop len (kind ∷ len ∷ more) in
        elim (first_double unformatted) [
          | none ↦ none
          | some end ↦ some (
            record {
              kind = kind;
              formatted = take len (kind ∷ len ∷ more);
              strings = strings_of unformatted end;
            },
            len + end + 2,
          )
        ])

-- `next`, with the offset that it leaves.
unfoldable pub next : Bytes → ℕ → Option (Record × ℕ)
unfolding parse_record
next table offset =
    if leb offset (length table)
    then elim (parse_record (drop offset table)) [
      | none ↦ none
      | some (r, n) ↦ some (r, offset + n)
    ]
    else none

-- All that the iterator yields from an offset on, in at most so many rounds.
unfoldable pub records : ℕ → Bytes → ℕ → List Record
unfolding next
records zero table offset = []
records (suc fuel) table offset = elim (next table offset) [
  | none ↦ []
  | some (r, after) ↦ r ∷ records fuel table after
]

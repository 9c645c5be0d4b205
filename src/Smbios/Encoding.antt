-- ===== src/Smbios/Encoding.antt =====
-- The walk of agent/src/smbios/table.rs against the table's format.
use renga.Prelude.{
  ℕ, zero, suc, ◌+◌, ◌≤◌, ◌<◌, ◌≡◌, refl, ap, subst, ◌∙◌, sym, false, ◌||◌, none, some, List, [],
  ◌∷◌, ◌++◌, ltb, ◌==◌, length, length-append, take, drop, arith, All,
}
use mathlib.Core.List.{append_assoc}
use renga.Bytes.{Bytes, split}
use renga.Bytes.RoundTrip.{drop-append, take-append}
use renga.Smbios.Table.{Record, first_double, parse_record, strings_of, next, records, end_of_table}

-- Strings with a zero byte between them.
abbrev pub joined : List Bytes → Bytes
joined [] = []
joined (s ∷ []) = s
joined (s ∷ t ∷ ss) = s ++ 0 ∷ joined (t ∷ ss)

-- A record's bytes as the standard lays them out: the formatted part, then the strings, then two zeros.
unfoldable pub encode : Record → Bytes
encode r = r.formatted ++ (joined r.strings ++ 0 ∷ 0 ∷ [])

abbrev pub encode_all : List Record → Bytes
encode_all [] = []
encode_all (r ∷ rs) = encode r ++ encode_all rs

abbrev Text : Bytes → Type 0
Text [] = ⊥
Text (c ∷ cs) = All (λ x. (x == 0) ≡ false) (c ∷ cs)

-- The header states the kind and the length of the formatted part; no string is empty or has a zero.
abbrev pub WellFormed : Record → Type 0
WellFormed r =
    (len : ℕ) × (more : Bytes) × (r.formatted ≡ r.kind ∷ len ∷ more)
    × (length r.formatted ≡ len)
    × (4 ≤ len)
    × ((r.kind == end_of_table) ≡ false)
    × All Text r.strings

run_out :
    (s rest : Bytes)
    → All (λ x. (x == 0) ≡ false) s
    → first_double (s ++ 0 ∷ 0 ∷ rest) ≡ some (length s)
unfolding first_double
run_out [] rest a = refl
run_out (x ∷ []) rest a = ground (arith, a.0)
run_out (x ∷ y ∷ s) rest a = ground (arith, a.0, run_out (y ∷ s) rest a.1)

run_on :
    (s : Bytes) (c : ℕ) (rest : Bytes) (n : ℕ)
    → All (λ x. (x == 0) ≡ false) s
    → (c == 0) ≡ false
    → first_double (c ∷ rest) ≡ some n
    → first_double (s ++ 0 ∷ c ∷ rest) ≡ some (length s + suc n)
unfolding first_double
run_on [] c rest n a h k = ground (arith, h, k)
run_on (x ∷ []) c rest n a h k = ground (arith, a.0, h, k)
run_on (x ∷ y ∷ s) c rest n a h k = ground (arith, a.0, run_on (y ∷ s) c rest n a.1 h k)

join-double :
    (s : Bytes) (e : ℕ) (tail rest : Bytes)
    → All (λ x. (x == 0) ≡ false) s
    → (e == 0) ≡ false
    → first_double ((e ∷ tail) ++ 0 ∷ 0 ∷ rest) ≡ some (length (e ∷ tail))
    → first_double ((s ++ 0 ∷ e ∷ tail) ++ 0 ∷ 0 ∷ rest) ≡ some (length (s ++ 0 ∷ e ∷ tail))
join-double s e tail rest a h k =
    let size : length s + suc (length (e ∷ tail)) ≡ length (s ++ 0 ∷ e ∷ tail) =
      omega (arith, length-append s (0 ∷ e ∷ tail)) in
    ap first_double (append_assoc s (0 ∷ e ∷ tail) (0 ∷ 0 ∷ rest))
    ∙ run_on s e (tail ++ 0 ∷ 0 ∷ rest) (length (e ∷ tail)) a h k
    ∙ ap some size

joined-first :
    (t : Bytes) (ss : List Bytes)
    → All Text (t ∷ ss)
    → (e : ℕ) × (tail : Bytes) × (joined (t ∷ ss) ≡ e ∷ tail) × ((e == 0) ≡ false)
joined-first [] ss a = absurd a.0
joined-first (d ∷ ds) [] a = (d, ds, refl, a.0.0)
joined-first (d ∷ ds) (u ∷ us) a = (d, ds ++ 0 ∷ joined (u ∷ us), refl, a.0.0)

joined-double :
    (ss : List Bytes) (rest : Bytes)
    → All Text ss
    → first_double (joined ss ++ 0 ∷ 0 ∷ rest) ≡ some (length (joined ss))
joined-double [] rest a = unfold first_double in refl
joined-double ([] ∷ ss) rest a = absurd a.0
joined-double ((c ∷ cs) ∷ []) rest a = run_out (c ∷ cs) rest a.0
joined-double ((c ∷ cs) ∷ t ∷ ss) rest a =
    let (e, tail, p, z) = joined-first t ss a.1 in
    let k =
      subst (λ j. first_double (j ++ 0 ∷ 0 ∷ rest) ≡ some (length j)) p
        (joined-double (t ∷ ss) rest a.1) in
    subst
      (λ j. first_double (((c ∷ cs) ++ 0 ∷ j) ++ 0 ∷ 0 ∷ rest) ≡ some (length ((c ∷ cs) ++ 0 ∷ j)))
      (sym p) (join-double (c ∷ cs) e tail rest a.0 z k)

split-text : (s : Bytes) → All (λ x. (x == 0) ≡ false) s → split 0 s ≡ s ∷ []
unfolding split
split-text [] a = refl
split-text (x ∷ s) a = ground (arith, a.0, split-text s a.1)

split-join :
    (s rest : Bytes) → All (λ x. (x == 0) ≡ false) s → split 0 (s ++ 0 ∷ rest) ≡ s ∷ split 0 rest
unfolding split
split-join [] rest a = refl
split-join (x ∷ s) rest a = ground (arith, a.0, split-join s rest a.1)

split-joined :
    (s : Bytes) (ss : List Bytes) → All Text (s ∷ ss) → split 0 (joined (s ∷ ss)) ≡ s ∷ ss
split-joined [] ss a = absurd a.0
split-joined (c ∷ cs) [] a = split-text (c ∷ cs) a.0
split-joined (c ∷ cs) (t ∷ ss) a =
    split-join (c ∷ cs) (joined (t ∷ ss)) a.0 ∙ ap (λ x. (c ∷ cs) ∷ x) (split-joined t ss a.1)

strings_of-joined :
    (ss : List Bytes) (rest : Bytes)
    → All Text ss
    → strings_of (joined ss ++ 0 ∷ 0 ∷ rest) (length (joined ss)) ≡ ss
unfolding strings_of
strings_of-joined [] rest a = refl
strings_of-joined (s ∷ ss) rest a =
    let (e, tail, p, _) = joined-first s ss a in
    let long : 0 < length (joined (s ∷ ss)) = rw p (omega arith) in
    let whole = take-append (joined (s ∷ ss)) (0 ∷ 0 ∷ rest) in
    ground (arith, long, whole, split-joined s ss a)

parse_record-laid :
    (kind len : ℕ) (more u : Bytes) (n : ℕ)
    → length (kind ∷ len ∷ more) ≡ len
    → 4 ≤ len
    → (kind == end_of_table) ≡ false
    → first_double u ≡ some n
    → parse_record ((kind ∷ len ∷ more) ++ u)
      ≡ some (
        record { kind = kind; formatted = kind ∷ len ∷ more; strings = strings_of u n },
        len + n + 2,
      )
unfolding parse_record
parse_record-laid kind len more u n e l k f =
    let front : take len ((kind ∷ len ∷ more) ++ u) ≡ kind ∷ len ∷ more =
      subst (λ m. take m ((kind ∷ len ∷ more) ++ u) ≡ kind ∷ len ∷ more) e
        (take-append (kind ∷ len ∷ more) u) in
    let back : drop len ((kind ∷ len ∷ more) ++ u) ≡ u =
      subst (λ m. drop m ((kind ∷ len ∷ more) ++ u) ≡ u) e (drop-append (kind ∷ len ∷ more) u) in
    let size = length-append (kind ∷ len ∷ more) u in
    let fine : (ltb len 4 || kind == end_of_table || ltb (length ((kind ∷ len ∷ more) ++ u)) len)
        ≡ false =
      ground (arith, e, l, k, size) in
    rw (parse_record, fine, back, f, back, front) refl

-- A well-formed record is read back from its bytes, whatever follows them, with their number.
parse_record-encode :
    (r : Record) (rest : Bytes)
    → WellFormed r
    → parse_record (encode r ++ rest) ≡ some (r, length (encode r))
unfolding encode
parse_record-encode r rest (len, more, p, e, l, k, a) =
    let j = joined r.strings in
    let u = j ++ 0 ∷ 0 ∷ rest in
    let laid =
      parse_record-laid r.kind len more u (length j) (subst (λ f. length f ≡ len) p e) l k
        (joined-double r.strings rest a) in
    let bytes : encode r ++ rest ≡ (r.kind ∷ len ∷ more) ++ u =
      append_assoc r.formatted (j ++ 0 ∷ 0 ∷ []) rest
      ∙ ap (λ x. r.formatted ++ x) (append_assoc j (0 ∷ 0 ∷ []) rest)
      ∙ ap (λ f. f ++ u) p in
    let size : len + length j + 2 ≡ length (encode r) =
      omega (arith, e, length-append r.formatted (j ++ 0 ∷ 0 ∷ []), length-append j (0 ∷ 0 ∷ [])) in
    ap parse_record bytes
    ∙ laid
    ∙ ap
        (λ f. some (
          record { kind = r.kind; formatted = f; strings = strings_of u (length j) },
          len + length j + 2,
        ))
        (sym p)
    ∙ ap
        (λ ss.
          some
            (record { kind = r.kind; formatted = r.formatted; strings = ss }, len + length j + 2))
        (strings_of-joined r.strings rest a)
    ∙ ap (λ n. some (r, n)) size

next-at :
    (pre x : Bytes)
    → next (pre ++ x) (length pre)
      ≡ elim (parse_record x) [ none ↦ none | some (r, n) ↦ some (r, length pre + n) ]
unfolding next
next-at pre x = rw (drop-append pre x) (ground (arith, length-append pre x))

records-laid :
    (fuel : ℕ) (rs : List Record) (pre tail : Bytes)
    → All WellFormed rs
    → parse_record tail ≡ none
    → length rs < fuel
    → records fuel (pre ++ (encode_all rs ++ tail)) (length pre) ≡ rs
unfolding records
records-laid zero rs pre tail a h l = absurd (omega (arith, l))
records-laid (suc fuel) [] pre tail a h l =
    let stop : next (pre ++ tail) (length pre) ≡ none = next-at pre tail ∙ rw h refl in
    rw (records, stop) refl
records-laid (suc fuel) (r ∷ rs) pre tail a h l =
    let x = encode_all rs ++ tail in
    let table = pre ++ ((encode r ++ encode_all rs) ++ tail) in
    let front : next table (length pre) ≡ some (r, length pre + length (encode r)) =
      ap (λ y. next (pre ++ y) (length pre)) (append_assoc (encode r) (encode_all rs) tail)
      ∙ next-at pre (encode r ++ x)
      ∙ rw (parse_record-encode r x a.0) refl in
    let same : (pre ++ encode r) ++ x ≡ table =
      append_assoc pre (encode r) x
      ∙ ap (λ y. pre ++ y) (sym (append_assoc (encode r) (encode_all rs) tail)) in
    let rest : records fuel table (length pre + length (encode r)) ≡ rs =
      subst (λ t. records fuel t (length pre + length (encode r)) ≡ rs) same
        (subst (λ n. records fuel ((pre ++ encode r) ++ x) n ≡ rs) (length-append pre (encode r))
          (records-laid fuel rs (pre ++ encode r) tail a.1 h (omega (arith, l)))) in
    rw (records, front) (ap (λ l. r ∷ l) rest)

short : (rs : List Record) → length rs ≤ length (encode_all rs)
unfolding encode
short [] = omega arith
short (r ∷ rs) = omega (
  arith,
  short rs,
  length-append (encode r) (encode_all rs),
  length-append r.formatted (joined r.strings ++ 0 ∷ 0 ∷ []),
  length-append (joined r.strings) (0 ∷ 0 ∷ []),
)

-- A table in which well-formed records are laid out one after the other, and after them nothing that
-- is a record (the end, or the record that marks it), is read as exactly those records.
pub records-encode_all :
    (rs : List Record) (tail : Bytes)
    → All WellFormed rs
    → parse_record tail ≡ none
    → records (suc (length (encode_all rs ++ tail))) (encode_all rs ++ tail) 0 ≡ rs
records-encode_all rs tail a h =
    records-laid (suc (length (encode_all rs ++ tail))) rs [] tail a h
      (omega (arith, short rs, length-append (encode_all rs) tail))

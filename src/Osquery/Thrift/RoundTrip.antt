-- ===== src/Osquery/Thrift/RoundTrip.antt =====
-- What agent/src/osquery/thrift.rs writes is read back.
use mathlib.Core.List.{append_assoc}
use renga.Prelude.{
  ℕ, zero, suc, ◌%◌, ◌^◌, ◌<◌, ◌≤◌, ◌≡◌, refl, sym, ap, ◌∙◌, [], ◌∷◌, ◌++◌, length, length-append,
  ok, true, false, arith, ◌==◌,
}
use renga.Bytes.{Bytes}
use renga.Osquery.Words.{to_be, read_int, Reader, i32_mod, max_elements}
use renga.Osquery.Words.RoundTrip.{read_int-to_be, read_size-to_be, read_bytes-write_bytes}
use renga.Osquery.Thrift.Shape.{
  depth, depth_fields, depth_entries, depth_items, encodable, encodable_fields, encodable_entries,
  encodable_items, depth-pos, map_parts, list_parts, entry_parts, item_parts,
}
use renga.Osquery.Thrift.{
  Value, Fields, Entries, Items, bool, byte, i16, i32, i64, double, string, struct, map, list,
  no_fields, field, no_entries, entry, no_items, item, type_id, count_entries, count_items,
  write_value, write_struct, write_entries, write_items, read_value, read_kind, read_struct,
  read_map, read_list, read_fields, read_entries, read_items,
}

read_byte : (n : ℕ) (rest : Bytes) → n < 256 → read_int 1 (n ∷ rest) ≡ (ok n, rest)
unfolding to_be
read_byte n rest h =
    let whole : n % 256 ≡ n = omega arith in
    let written : to_be 1 n ≡ n ∷ [] = ap (λ m. m ∷ []) whole in
    ap (λ s. read_int 1 (s ++ rest)) (sym written) ∙ read_int-to_be 1 n rest (omega arith)

type_id-lt : (v : Value) → type_id v < 256
type_id-lt (bool _) = omega arith
type_id-lt (byte _) = omega arith
type_id-lt (i16 _) = omega arith
type_id-lt (i32 _) = omega arith
type_id-lt (i64 _) = omega arith
type_id-lt (double _) = omega arith
type_id-lt (string _) = omega arith
type_id-lt (struct _) = omega arith
type_id-lt (map _ _ _) = omega arith
type_id-lt (list _ _) = omega arith

type_id-ne-zero : (v : Value) → (type_id v == 0) ≡ false
type_id-ne-zero (bool _) = refl
type_id-ne-zero (byte _) = refl
type_id-ne-zero (i16 _) = refl
type_id-ne-zero (i32 _) = refl
type_id-ne-zero (i64 _) = refl
type_id-ne-zero (double _) = refl
type_id-ne-zero (string _) = refl
type_id-ne-zero (struct _) = refl
type_id-ne-zero (map _ _ _) = refl
type_id-ne-zero (list _ _) = refl

abbrev count_fields : Fields → ℕ
count_fields no_fields = 0
count_fields (field _ _ fs) = suc (count_fields fs)

count_fields-lt : (fs : Fields) (rest : Bytes) → count_fields fs < length (write_struct fs ++ rest)
unfolding write_value
count_fields-lt no_fields rest = omega arith
count_fields-lt (field id v fs) rest =
    let tail = write_struct fs in
    omega (
      arith,
      length-append (to_be 2 id ++ (write_value v ++ tail)) rest,
      length-append (to_be 2 id) (write_value v ++ tail),
      length-append (write_value v) tail,
      length-append tail rest,
      count_fields-lt fs rest,
    )

module _ (read : ℕ → Reader Value) where
  struct_back :
      (fs : Fields) (rest : Bytes)
      → ((fuel : ℕ)
          → count_fields fs < fuel
          → read_fields read fuel (write_struct fs ++ rest) ≡ (ok fs, rest))
      → read_struct read (write_struct fs ++ rest) ≡ (ok (struct fs), rest)
  unfolding read_struct
  struct_back fs rest h =
      rw (h (suc (length (write_struct fs ++ rest))) (omega (arith, count_fields-lt fs rest)))

  field_back :
      (id : ℕ) (v : Value) (fs : Fields) (fuel : ℕ) (rest : Bytes)
      → id < 256 ^ 2
      → ((more : Bytes) → read (type_id v) (write_value v ++ more) ≡ (ok v, more))
      → read_fields read fuel (write_struct fs ++ rest) ≡ (ok fs, rest)
      → read_fields read (suc fuel) (write_struct (field id v fs) ++ rest)
        ≡ (ok (field id v fs), rest)
  unfolding read_fields write_value
  field_back id v fs fuel rest h value_back tail_back = rw (
    append_assoc (to_be 2 id) (write_value v ++ write_struct fs) rest,
    append_assoc (write_value v) (write_struct fs) rest,
    read_byte (type_id v) (to_be 2 id ++ (write_value v ++ (write_struct fs ++ rest)))
        (type_id-lt v),
    type_id-ne-zero v,
    read_int-to_be 2 id (write_value v ++ (write_struct fs ++ rest)) h,
    value_back (write_struct fs ++ rest),
    tail_back,
  )

  no_fields_back :
      (fuel : ℕ) (rest : Bytes) → read_fields read (suc fuel) (0 ∷ rest) ≡ (ok no_fields, rest)
  unfolding read_fields
  no_fields_back fuel rest = rw (read_byte 0 rest (omega arith))

  map_back :
      (key value : ℕ) (es : Entries) (rest : Bytes)
      → key < 256
      → value < 256
      → count_entries es ≤ max_elements
      → read_entries read key value (count_entries es) (write_entries es ++ rest) ≡ (ok es, rest)
      → read_map read (write_value (map key value es) ++ rest) ≡ (ok (map key value es), rest)
  unfolding read_map write_value
  map_back key value es rest hk hv hn h =
      let count = to_be 4 (count_entries es % i32_mod) in
      rw (
        append_assoc count (write_entries es) rest,
        read_byte key (value ∷ (count ++ (write_entries es ++ rest))) hk,
        read_byte value (count ++ (write_entries es ++ rest)) hv,
        read_size-to_be (count_entries es) (write_entries es ++ rest) hn,
        h,
      )

  entry_back :
      (k v : Value) (es : Entries) (rest : Bytes) (key value : ℕ)
      → type_id k ≡ key
      → type_id v ≡ value
      → ((more : Bytes) → read (type_id k) (write_value k ++ more) ≡ (ok k, more))
      → ((more : Bytes) → read (type_id v) (write_value v ++ more) ≡ (ok v, more))
      → read_entries read key value (count_entries es) (write_entries es ++ rest) ≡ (ok es, rest)
      → read_entries read key value (suc (count_entries es)) (write_entries (entry k v es) ++ rest)
        ≡ (ok (entry k v es), rest)
  unfolding read_entries write_value
  entry_back k v es rest key value tk tv k_back v_back h =
      let after_key = write_value v ++ (write_entries es ++ rest) in
      let k_read = ap (λ t. read t (write_value k ++ after_key)) (sym tk) ∙ k_back after_key in
      let v_read = ap (λ t. read t after_key) (sym tv) ∙ v_back (write_entries es ++ rest) in
      rw (
        append_assoc (write_value k) (write_value v ++ write_entries es) rest,
        append_assoc (write_value v) (write_entries es) rest,
        k_read,
        v_read,
        h,
      )

  read_entries-zero :
      (key value : ℕ) (rest : Bytes) → read_entries read key value 0 rest ≡ (ok no_entries, rest)
  unfolding read_entries
  read_entries-zero key value rest = refl

  read_items-zero :
      (element : ℕ) (rest : Bytes) → read_items read element 0 rest ≡ (ok no_items, rest)
  unfolding read_items
  read_items-zero element rest = refl

  list_back :
      (element : ℕ) (is : Items) (rest : Bytes)
      → element < 256
      → count_items is ≤ max_elements
      → read_items read element (count_items is) (write_items is ++ rest) ≡ (ok is, rest)
      → read_list read (write_value (list element is) ++ rest) ≡ (ok (list element is), rest)
  unfolding read_list write_value
  list_back element is rest he hn h =
      let count = to_be 4 (count_items is % i32_mod) in
      rw (
        append_assoc count (write_items is) rest,
        read_byte element (count ++ (write_items is ++ rest)) he,
        read_size-to_be (count_items is) (write_items is ++ rest) hn,
        h,
      )

  item_back :
      (v : Value) (is : Items) (rest : Bytes) (element : ℕ)
      → type_id v ≡ element
      → ((more : Bytes) → read (type_id v) (write_value v ++ more) ≡ (ok v, more))
      → read_items read element (count_items is) (write_items is ++ rest) ≡ (ok is, rest)
      → read_items read element (suc (count_items is)) (write_items (item v is) ++ rest)
        ≡ (ok (item v is), rest)
  unfolding read_items write_value
  item_back v is rest element t v_back h =
      let v_read =
        ap (λ t. read t (write_value v ++ (write_items is ++ rest))) (sym t)
        ∙ v_back (write_items is ++ rest) in
      rw (append_assoc (write_value v) (write_items is) rest, v_read, h)

mutual
  unfolding read_value read_kind write_value encodable depth

  pub value_back :
      (v : Value) (levels : ℕ) (rest : Bytes)
      → encodable v ≡ true
      → depth v ≤ levels
      → read_value levels (type_id v) (write_value v ++ rest) ≡ (ok v, rest)
  value_back v zero rest e d = absurd (omega (arith, depth-pos v))
  value_back (bool true) (suc l) rest e d = rw (read_byte 1 rest (omega arith))
  value_back (bool false) (suc l) rest e d = rw (read_byte 0 rest (omega arith))
  value_back (byte n) (suc l) rest e d = rw (read_int-to_be 1 n rest (ground arith))
  value_back (i16 n) (suc l) rest e d = rw (read_int-to_be 2 n rest (ground arith))
  value_back (i32 n) (suc l) rest e d = rw (read_int-to_be 4 n rest (ground arith))
  value_back (i64 n) (suc l) rest e d = rw (read_int-to_be 8 n rest (ground arith))
  value_back (double n) (suc l) rest e d = rw (read_int-to_be 8 n rest (ground arith))
  value_back (string s) (suc l) rest e d = rw (read_bytes-write_bytes s rest (ground arith))
  value_back (struct fs) (suc l) rest e d =
      struct_back (read_value l) fs rest (λ fuel h. fields_back fs l fuel rest e (omega arith) h)
  value_back (map key value es) (suc l) rest e d =
      let parts = map_parts key value es e in
      map_back (read_value l) key value es rest parts.0 parts.1 parts.2
        (entries_back es l key value rest parts.3 (omega arith))
  value_back (list element is) (suc l) rest e d =
      let parts = list_parts element is e in
      list_back (read_value l) element is rest parts.0 parts.1
        (items_back is l element rest parts.2 (omega arith))

  fields_back :
      (fs : Fields) (levels fuel : ℕ) (rest : Bytes)
      → encodable_fields fs ≡ true
      → depth_fields fs ≤ levels
      → count_fields fs < fuel
      → read_fields (read_value levels) fuel (write_struct fs ++ rest) ≡ (ok fs, rest)
  fields_back fs l zero rest e d c = elim c [ ]
  fields_back no_fields l (suc fuel) rest e d c = no_fields_back (read_value l) fuel rest
  fields_back (field id v fs) l (suc fuel) rest e d c =
      field_back (read_value l) id v fs fuel rest (ground arith)
        (λ more. value_back v l more (ground arith) (omega arith))
        (fields_back fs l fuel rest (ground arith) (omega arith) (omega arith))

  entries_back :
      (es : Entries) (levels key value : ℕ) (rest : Bytes)
      → encodable_entries key value es ≡ true
      → depth_entries es ≤ levels
      → read_entries (read_value levels) key value (count_entries es) (write_entries es ++ rest)
        ≡ (ok es, rest)
  entries_back no_entries l key value rest e d = read_entries-zero (read_value l) key value rest
  entries_back (entry k v es) l key value rest e d =
      let parts = entry_parts key value k v es e in
      entry_back (read_value l) k v es rest key value parts.0 parts.1
        (λ more. value_back k l more parts.2 (omega arith))
        (λ more. value_back v l more parts.3 (omega arith))
        (entries_back es l key value rest parts.4 (omega arith))

  items_back :
      (is : Items) (levels element : ℕ) (rest : Bytes)
      → encodable_items element is ≡ true
      → depth_items is ≤ levels
      → read_items (read_value levels) element (count_items is) (write_items is ++ rest)
        ≡ (ok is, rest)
  items_back no_items l element rest e d = read_items-zero (read_value l) element rest
  items_back (item v is) l element rest e d =
      let parts = item_parts element v is e in
      item_back (read_value l) v is rest element parts.0
        (λ more. value_back v l more parts.1 (omega arith))
        (items_back is l element rest parts.2 (omega arith))

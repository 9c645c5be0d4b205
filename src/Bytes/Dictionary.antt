-- ===== src/Bytes/Dictionary.antt =====
-- `BTreeMap<String, String>` of Rust's standard library: pairs in the order of their keys.
use renga.Prelude.{suc, ◌≤◌, Option, none, some, List, [], ◌∷◌, if◌then◌else◌, length, arith}
use renga.Bytes.Decimal.{Bytes, bytes_eq}
use renga.Bytes.Order.{bytes_ltb}

abbrev pub Dictionary : Type 0
Dictionary = List (Bytes × Bytes)

unfoldable pub insert : Bytes → Bytes → Dictionary → Dictionary
insert k v [] = (k, v) ∷ []
insert k v ((j, w) ∷ m) =
    if bytes_eq k j
    then (k, v) ∷ m
    else if bytes_ltb k j
    then (k, v) ∷ (j, w) ∷ m
    else (j, w) ∷ insert k v m

unfoldable pub get : Bytes → Dictionary → Option Bytes
get k [] = none
get k ((j, w) ∷ m) = if bytes_eq k j then some w else get k m

-- `collect`: of two entries with the same key the later one is kept.
unfoldable pub collect : Dictionary → Dictionary → Dictionary
collect m [] = m
collect m ((k, v) ∷ pairs) = collect (insert k v m) pairs

pub length-insert : (k v : Bytes) (m : Dictionary) → length (insert k v m) ≤ suc (length m)
unfolding insert
length-insert k v [] = omega arith
length-insert k v ((j, w) ∷ m) = ground (arith, length-insert k v m)

-- ===== src/Osquery/Thrift/Shape.antt =====
-- What bounds the values of agent/src/osquery/thrift.rs: how deep they nest, and what the writer can
-- encode.
use renga.Prelude.{ℕ, suc, ◌^◌, ◌≤◌, ◌<◌, ◌≡◌, max, Bool, true, ◌&&◌, ltb, leb, ◌==◌, length, arith}
use renga.Osquery.Words.{max_elements, max_reply_bytes}
use renga.Osquery.Thrift.{
  Value, Fields, Entries, Items, bool, byte, i16, i32, i64, double, string, struct, map, list,
  no_fields, field, no_entries, entry, no_items, item, type_id, count_entries, count_items,
}

unfoldable mutual
  pub depth : Value → ℕ
  depth (struct fs) = suc (depth_fields fs)
  depth (map _ _ es) = suc (depth_entries es)
  depth (list _ is) = suc (depth_items is)
  depth _ = 1

  pub depth_fields : Fields → ℕ
  depth_fields no_fields = 0
  depth_fields (field _ v fs) = max (depth v) (depth_fields fs)

  pub depth_entries : Entries → ℕ
  depth_entries no_entries = 0
  depth_entries (entry k v es) = max (depth k) (max (depth v) (depth_entries es))

  pub depth_items : Items → ℕ
  depth_items no_items = 0
  depth_items (item v is) = max (depth v) (depth_items is)

-- Integers of their width, strings and containers within the bounds of a reply, and containers of the
-- types that they declare.
unfoldable mutual
  pub encodable : Value → Bool
  encodable (bool _) = true
  encodable (byte n) = ltb n (256 ^ 1)
  encodable (i16 n) = ltb n (256 ^ 2)
  encodable (i32 n) = ltb n (256 ^ 4)
  encodable (i64 n) = ltb n (256 ^ 8)
  encodable (double n) = ltb n (256 ^ 8)
  encodable (string s) = leb (length s) max_reply_bytes
  encodable (struct fs) = encodable_fields fs
  encodable (map key value es) =
      ltb key 256
      && ltb value 256
      && leb (count_entries es) max_elements
      && encodable_entries key value es
  encodable (list element is) =
      ltb element 256 && leb (count_items is) max_elements && encodable_items element is

  pub encodable_fields : Fields → Bool
  encodable_fields no_fields = true
  encodable_fields (field id v fs) = ltb id (256 ^ 2) && encodable v && encodable_fields fs

  pub encodable_entries : ℕ → ℕ → Entries → Bool
  encodable_entries key value no_entries = true
  encodable_entries key value (entry k v es) =
      type_id k == key
      && type_id v == value
      && encodable k
      && encodable v
      && encodable_entries key value es

  pub encodable_items : ℕ → Items → Bool
  encodable_items element no_items = true
  encodable_items element (item v is) =
      type_id v == element && encodable v && encodable_items element is

pub depth-pos : (v : Value) → 1 ≤ depth v
unfolding depth
depth-pos (struct fs) = omega arith
depth-pos (map _ _ es) = omega arith
depth-pos (list _ is) = omega arith
depth-pos _ = omega arith

-- The parts of what is asked of a container, and of each of its elements.
pub map_parts :
    (key value : ℕ) (es : Entries)
    → encodable (map key value es) ≡ true
    → (key < 256)
      × (value < 256)
      × (count_entries es ≤ max_elements)
      × (encodable_entries key value es ≡ true)
unfolding encodable
map_parts key value es h = ground arith

pub list_parts :
    (element : ℕ) (is : Items)
    → encodable (list element is) ≡ true
    → (element < 256) × (count_items is ≤ max_elements) × (encodable_items element is ≡ true)
unfolding encodable
list_parts element is h = ground arith

conjuncts :
    (a b c d : ℕ) (p q r : Bool)
    → (a == b && c == d && p && q && r) ≡ true
    → (a ≡ b) × (c ≡ d) × (p ≡ true) × (q ≡ true) × (r ≡ true)
conjuncts a b c d p q r h = ground arith

three_conjuncts :
    (a b : ℕ) (p q : Bool) → (a == b && p && q) ≡ true → (a ≡ b) × (p ≡ true) × (q ≡ true)
three_conjuncts a b p q h = ground arith

pub item_parts :
    (element : ℕ) (v : Value) (is : Items)
    → encodable_items element (item v is) ≡ true
    → (type_id v ≡ element) × (encodable v ≡ true) × (encodable_items element is ≡ true)
unfolding encodable
item_parts element v is h =
    three_conjuncts (type_id v) element (encodable v) (encodable_items element is) h

pub entry_parts :
    (key value : ℕ) (k v : Value) (es : Entries)
    → encodable_entries key value (entry k v es) ≡ true
    → (type_id k ≡ key)
      × (type_id v ≡ value)
      × (encodable k ≡ true)
      × (encodable v ≡ true)
      × (encodable_entries key value es ≡ true)
unfolding encodable
entry_parts key value k v es h =
    conjuncts (type_id k) key (type_id v) value (encodable k) (encodable v)
      (encodable_entries key value es) h

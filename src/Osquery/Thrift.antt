-- ===== src/Osquery/Thrift.antt =====
-- The part of Thrift's binary protocol that osquery speaks: agent/src/osquery/thrift.rs.
--
-- A `Vec` of a type that holds values is a list of its own, since the types are mutual. A value of
-- `f64` is its 64 bits.
pub mod Shape
pub mod RoundTrip
pub mod Message
pub mod Bounded
pub mod Consumed
use renga.Prelude.{
  ℕ, zero, suc, ◌+◌, ◌*◌, ◌/◌, ◌%◌, Bool, true, false, ◌&&◌, ◌||◌, Option, none, some, List, [],
  ◌∷◌, ◌++◌, ltb, leb, ◌==◌, if◌then◌else◌, length, take, drop, Result, ok, err, pure, raise, gets,
  ◌>>=◌, ◌>>◌,
}
use renga.Bytes.{Bytes}
use renga.Smbios.Text.{valid_utf8}
use renga.Osquery.Lossy.{from_utf8_lossy}
use renga.Osquery.Words.{
  ThriftError, not_strict, not_utf8, too_deep, unknown_type, unexpected_eof, Reader, to_be,
  read_array, read_int, read_size, read_bytes, write_bytes, i32_mod, max_reply_bytes,
}

mutual
  pub data Value : Type 0 where
    bool : Bool → Value
    byte : ℕ → Value
    i16 : ℕ → Value
    i32 : ℕ → Value
    i64 : ℕ → Value
    double : ℕ → Value
    string : Bytes → Value
    struct : Fields → Value
    map : ℕ → ℕ → Entries → Value
    list : ℕ → Items → Value

  pub data Fields : Type 0 where
    no_fields : Fields
    field : ℕ → Value → Fields → Fields

  pub data Entries : Type 0 where
    no_entries : Entries
    entry : Value → Value → Entries → Entries

  pub data Items : Type 0 where
    no_items : Items
    item : Value → Items → Items

abbrev pub type_id : Value → ℕ
type_id (bool _) = 2
type_id (byte _) = 3
type_id (double _) = 4
type_id (i16 _) = 6
type_id (i32 _) = 8
type_id (i64 _) = 10
type_id (string _) = 11
type_id (struct _) = 12
type_id (map _ _ _) = 13
type_id (list _ _) = 15

abbrev pub count_entries : Entries → ℕ
count_entries no_entries = 0
count_entries (entry _ _ es) = suc (count_entries es)

abbrev pub count_items : Items → ℕ
count_items no_items = 0
count_items (item _ is) = suc (count_items is)

abbrev flag : Bool → ℕ
flag true = 1
flag false = 0

unfoldable mutual
  pub write_value : Value → Bytes
  write_value (bool b) = flag b ∷ []
  write_value (byte n) = to_be 1 n
  write_value (i16 n) = to_be 2 n
  write_value (i32 n) = to_be 4 n
  write_value (i64 n) = to_be 8 n
  write_value (double n) = to_be 8 n
  write_value (string bytes) = write_bytes bytes
  write_value (struct fs) = write_struct fs
  write_value (map key value es) =
      key ∷ value ∷ (to_be 4 (count_entries es % i32_mod) ++ write_entries es)
  write_value (list element is) = element ∷ (to_be 4 (count_items is % i32_mod) ++ write_items is)

  pub write_struct : Fields → Bytes
  write_struct no_fields = 0 ∷ []
  write_struct (field id v fs) = type_id v ∷ (to_be 2 id ++ (write_value v ++ write_struct fs))

  pub write_entries : Entries → Bytes
  write_entries no_entries = []
  write_entries (entry k v es) = write_value k ++ (write_value v ++ write_entries es)

  pub write_items : Items → Bytes
  write_items no_items = []
  write_items (item v is) = write_value v ++ write_items is

unfoldable pub find_field : ℕ → Fields → Option Value
find_field id no_fields = none
find_field id (field j v fs) = if j == id then some v else find_field id fs

-- A field of a struct by its id.
unfoldable pub field_of : ℕ → Value → Option Value
unfolding find_field
field_of id (struct fs) = find_field id fs
field_of id _ = none

abbrev pub as_i32 : Value → Option ℕ
as_i32 (i32 n) = some n
as_i32 _ = none

unfoldable pub as_str : Value → Option Bytes
as_str (string bytes) = some (from_utf8_lossy bytes)
as_str _ = none

abbrev pub as_list : Value → Option Items
as_list (list _ is) = some is
as_list _ = none

abbrev pub as_map : Value → Option Entries
as_map (map _ _ es) = some es
as_map _ = none

-- The loops of `read_value`, where `read` reads a value one level deeper. Each round over a struct
-- takes at least a byte, so that as many rounds as there are bytes are enough.
module _ (read : ℕ → Reader Value) where
  unfoldable pub read_fields : ℕ → Reader Fields
  read_fields zero = raise unexpected_eof
  read_fields (suc fuel) = do
    kind ← read_int 1
    if kind == 0
        then pure no_fields
        else (do id ← read_int 2; v ← read kind; fs ← read_fields fuel; pure (field id v fs))

  unfoldable pub read_entries : ℕ → ℕ → ℕ → Reader Entries
  read_entries key value zero = pure no_entries
  read_entries key value (suc n) = do
    k ← read key
    v ← read value
    es ← read_entries key value n
    pure (entry k v es)

  unfoldable pub read_items : ℕ → ℕ → Reader Items
  read_items element zero = pure no_items
  read_items element (suc n) = do v ← read element; is ← read_items element n; pure (item v is)

  unfoldable pub read_struct : Reader Value
  read_struct = do left ← gets length; fs ← read_fields (suc left); pure (struct fs)

  unfoldable pub read_map : Reader Value
  read_map = do
    key ← read_int 1
    value ← read_int 1
    size ← read_size
    es ← read_entries key value size
    pure (map key value es)

  unfoldable pub read_list : Reader Value
  read_list = do
    element ← read_int 1
    size ← read_size
    is ← read_items element size
    pure (list element is)

  unfoldable pub read_kind : ℕ → Reader Value
  read_kind kind =
      if kind == 2
      then (do n ← read_int 1; pure (bool (if n == 0 then false else true)))
      else if kind == 3
      then (do n ← read_int 1; pure (byte n))
      else if kind == 6
      then (do n ← read_int 2; pure (i16 n))
      else if kind == 8
      then (do n ← read_int 4; pure (i32 n))
      else if kind == 10
      then (do n ← read_int 8; pure (i64 n))
      else if kind == 4
      then (do n ← read_int 8; pure (double n))
      else if kind == 11
      then (do bytes ← read_bytes; pure (string bytes))
      else if kind == 12
      then read_struct
      else if kind == 13
      then read_map
      else if kind == 15 || kind == 14
      then read_list
      else raise (unknown_type kind)

-- `levels` is `MAX_DEPTH + 1` less the depth, so that none are left where the depth is too great.
unfoldable pub read_value : ℕ → ℕ → Reader Value
read_value zero kind = raise too_deep
read_value (suc levels) kind = read_kind (read_value levels) kind

abbrev pub max_levels : ℕ
max_levels = 17

pub record Header : Type 0 where
  pub kind : ℕ
  pub name : Bytes
  pub seqid : ℕ

-- `VERSION_1 | kind`, the name, the sequence id and the body.
unfoldable pub write_message : Header → Fields → Bytes
write_message h body =
    to_be 4 (0x80010000 + h.kind) ++ (write_bytes h.name ++ (to_be 4 h.seqid ++ write_struct body))

abbrev pub utf8_or : Bytes → Reader Bytes
utf8_or s = if valid_utf8 (length s) s then pure s else raise not_utf8

unfoldable pub read_header_body : Reader (Header × Value)
read_header_body = do
  word ← read_int 4
  if word / 65536 == 0x8001
      then (do
        bytes ← read_bytes
        name ← utf8_or bytes
        seqid ← read_int 4
        body ← read_value max_levels 12
        pure (record { kind = word % 256; name = name; seqid = seqid }, body))
      else raise not_strict

-- `input.take(MAX_REPLY_BYTES)`: what is left of the reply is left in the stream, before the rest.
unfoldable pub read_message : Reader (Header × Value)
read_message s =
    let (message, left) = read_header_body (take max_reply_bytes s) in
    (message, left ++ drop max_reply_bytes s)

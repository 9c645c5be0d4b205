-- ===== src/Queries/Table.antt =====
-- The table that `query.sql` answers with: `table` of agent/src/jobs/queries/sql.rs.
pub mod Steps
pub mod Within
mod Examples
use renga.Prelude.{
  ℕ, ◌+◌, ◌*◌, ◌-◌, ◌/◌, Bool, false, ◌||◌, Option, none, some, List, [], ◌∷◌, any, map, ltb,
  if◌then◌else◌, length, take,
}
use renga.Bytes.{Bytes}
use renga.Osquery.Client.{Row}
use renga.Bytes.Dictionary.{get}
use renga.Queries.Bounded.{
  Bounded, with_budget, push, clip, count_chars, cost, saturating_add, result_budget_bytes,
}

abbrev pub max_columns : ℕ
max_columns = 256

abbrev pub max_column_name : ℕ
max_column_name = 128

abbrev pub max_rows : ℕ
max_rows = 10000

abbrev pub max_cell : ℕ
max_cell = 1024

abbrev pub envelope_bytes : ℕ
envelope_bytes = 64

pub record Table : Type 0 where
  pub columns : List Bytes
  pub rows : List (List Bytes)
  pub truncated : Bool

-- The header so far: its names, what it costs, and whether a name was cut.
pub record Header : Type 0 where
  pub names : List Bytes
  pub bytes : ℕ
  pub clipped : Bool

abbrev pub is_clipped : Bytes → ℕ → Bool
is_clipped value max = ltb max (count_chars value)

abbrev pub text_of : Bytes → Bytes → Row → Bytes
text_of column default row = elim (get column row) [ none ↦ default | some text ↦ text ]

abbrev pub cell : Row → Bytes → Bytes
cell row name = text_of name [] row

-- The lengths of what `serde_json` writes.
pub record Json : Type 0 where
  pub text_size : Bytes → Option ℕ
  pub row_size : List Bytes → Option ℕ

module _ (json : Json) where
  unfoldable pub header_each : List Bytes → ℕ → Header
  header_each [] bytes = record { names = []; bytes = bytes; clipped = false }
  header_each (column ∷ columns) bytes =
      let name = clip column max_column_name in
      let size = cost (json.text_size name) in
      let rest = header_each columns (bytes + size) in
      if ltb (result_budget_bytes / 2) (saturating_add bytes size)
      then record { names = []; bytes = bytes; clipped = is_clipped column max_column_name }
      else record {
        names = name ∷ rest.names;
        bytes = rest.bytes;
        clipped = is_clipped column max_column_name || rest.clipped;
      }

  -- Whether a value was cut, and the list of rows.
  unfoldable pub fill : List Bytes → List Row → Bounded (List Bytes) → Bool × Bounded (List Bytes)
  fill names [] list = (false, list)
  fill names (row ∷ rows) list =
      let values = map (λ name. clip (cell row name) max_cell) names in
      let cut = any (λ name. is_clipped (cell row name) max_cell) names in
      let (pushed, list') = push json.row_size values list in
      let rest = fill names rows list' in if pushed then (cut || rest.0, rest.1) else (cut, list')

  unfoldable pub table : List Bytes → List Row → Table
  table columns rows =
      let names = take max_columns columns in
      let header = header_each names envelope_bytes in
      let kept = take (length header.names) names in
      let dropped = ltb (length header.names) (length names) in
      let list = fill kept rows (with_budget max_rows (result_budget_bytes - header.bytes)) in
      record {
        columns = header.names;
        rows = list.1.items;
        truncated =
            ltb max_columns (length columns)
            || header.clipped
            || list.0
            || list.1.truncated
            || dropped;
      }

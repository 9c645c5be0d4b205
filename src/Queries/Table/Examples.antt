-- ===== src/Queries/Table/Examples.antt =====
-- What became of two rows of processes.
use renga.Prelude.{◌+◌, ◌≤◌, ◌≡◌, refl, false, some, List, [], ◌∷◌, map, length, total, All}
use renga.Bytes.{Bytes, bytes_eq}
use renga.Bytes.Literals.{codes}
use renga.Bytes.Dictionary.{get}
use renga.Osquery.Client.{Row}
use renga.Queries.Bounded.{push, clip, count_chars, cost, saturating_add, result_budget_bytes}
use renga.Queries.Table.{
  Json, table, header_each, fill, cell, max_columns, max_column_name, max_rows, envelope_bytes,
}
use renga.Queries.Table.Within.{table-Complete}
use renga.Queries.Table.Steps.{Fits}

-- A table whose second row has no value in its first column.
abbrev json : Json
json = record {
  text_size = λ text. some (length text);
  row_size = λ values. some (total length values + 2);
}

abbrev processes : List Row
processes =
    ((codes "name", codes "sshd") ∷ (codes "pid", codes "812") ∷ [])
    ∷ ((codes "pid", codes "1") ∷ [])
    ∷ []

abbrev columns : List Bytes
columns = codes "name" ∷ codes "pid" ∷ []

listed : table json columns processes ≡ record {
  columns = columns;
  rows = (codes "sshd" ∷ codes "812" ∷ []) ∷ ([] ∷ codes "1" ∷ []) ∷ [];
  truncated = false;
}
unfolding table header_each fill push saturating_add clip count_chars get bytes_eq
listed = refl

table-Complete_example :
    let t = table json columns processes in
    (length t.columns ≤ max_columns)
    × All (λ name. count_chars name ≤ max_column_name) t.columns
    × (length t.rows ≤ max_rows)
    × All (Fits t.columns) t.rows
    × (envelope_bytes
          + total (λ name. cost (json.text_size name)) t.columns
          + total (λ values. cost (json.row_size values)) t.rows
        ≤ result_budget_bytes)
    × (t.truncated ≡ false
        → (t.columns ≡ columns) × (t.rows ≡ map (λ row. map (cell row) columns) processes))
table-Complete_example = table-Complete json columns processes

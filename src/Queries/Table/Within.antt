-- ===== src/Queries/Table/Within.antt =====
-- The bounds of the table of agent/src/jobs/queries/sql.rs, and what it says of itself.
use renga.Prelude.{
  neither, ℕ, zero, suc, ◌+◌, ◌-◌, ◌≤◌, ◌≡◌, refl, sym, ap, subst, ◌∙◌, Bool, false, ◌||◌, List, [],
  ◌∷◌, map, ltb, length, take, take-short, take-long, total, All, arith,
}
use renga.Bytes.{Bytes}
use renga.Osquery.Client.{Row}
use renga.Queries.Bounded.{Bounded, with_budget, count_chars, cost, result_budget_bytes, IsKept}
use renga.Queries.Table.{
  Json, Header, max_columns, max_column_name, max_rows, envelope_bytes, cell, header_each, fill,
  table,
}
use renga.Queries.Table.Steps.{Fits, not_above, Headed, header_each-Headed, Filled, fill-Filled}

columns-Fits :
    (names names' : List Bytes)
    → length names ≡ length names'
    → (rows : List (List Bytes)) → All (Fits names) rows
    → All (Fits names') rows
columns-Fits names names' e [] h = tt
columns-Fits names names' e (row ∷ rows) ((k, short), h) =
    ((k ∙ e, short), columns-Fits names names' e rows h)

length-take-≤ : {A : Type 0} (n : ℕ) (xs : List A) → length (take n xs) ≤ n
length-take-≤ zero xs = omega arith
length-take-≤ (suc n) [] = omega arith
length-take-≤ (suc n) (x ∷ xs) = omega (arith, length-take-≤ n xs)

module _ (json : Json) where
  empty-IsKept : (max_items budget : ℕ) → IsKept json.row_size (with_budget max_items budget)
  empty-IsKept max_items budget = record {
    few = omega arith;
    counted = refl;
    affordable = omega arith;
    allotted = omega arith;
  }

  -- The table stays within every bound: its columns, their names, its rows, their values and all that
  -- it takes as JSON; each row has a value for each column. And a table that is not marked as truncated
  -- is complete: the columns and the rows that osquery answered, each value in its column, unchanged.
  pub table-Complete :
      (columns : List Bytes) (rows : List Row)
      → let t = table json columns rows in
        (length t.columns ≤ max_columns)
        × All (λ name. count_chars name ≤ max_column_name) t.columns
        × (length t.rows ≤ max_rows)
        × All (Fits t.columns) t.rows
        × (envelope_bytes
              + total (λ name. cost (json.text_size name)) t.columns
              + total (λ values. cost (json.row_size values)) t.rows
            ≤ result_budget_bytes)
        × (t.truncated ≡ false
            → (t.columns ≡ columns) × (t.rows ≡ map (λ row. map (cell row) columns) rows))
  unfolding table
  table-Complete columns rows = (
    omega (arith, h.few, length-take-≤ max_columns columns),
    h.short,
    omega (arith, f.kept.few, f.max_items),
    columns-Fits kept header.names same_length list.1.items
        (subst (All (Fits kept)) (sym f.added) f.fits),
    affordable,
    complete,
  )
    where
      names : List Bytes
      names = take max_columns columns

      header : Header
      header = header_each json names envelope_bytes

      h : Headed json names envelope_bytes header
      h = header_each-Headed json names envelope_bytes (omega arith)

      kept : List Bytes
      kept = take (length header.names) names

      same_length : length kept ≡ length header.names
      same_length = take-long (length header.names) names h.few

      list : Bool × Bounded (List Bytes)
      list = fill json kept rows (with_budget max_rows (result_budget_bytes - header.bytes))

      f : Filled json kept rows (with_budget max_rows (result_budget_bytes - header.bytes)) list
      f = fill-Filled json kept rows _ (empty-IsKept max_rows (result_budget_bytes - header.bytes))

      affordable :
          envelope_bytes
            + total (λ name. cost (json.text_size name)) header.names
            + total (λ values. cost (json.row_size values)) list.1.items
          ≤ result_budget_bytes
      affordable = omega (arith, h.counted, h.half, f.kept.counted, f.kept.affordable, f.budget)

      complete :
          (ltb max_columns (length columns)
              || header.clipped
              || list.0
              || list.1.truncated
              || ltb (length header.names) (length names))
            ≡ false
          → (header.names ≡ columns) × (list.1.items ≡ map (λ row. map (cell row) columns) rows)
      complete e =
          let (rows_whole, all_names) = neither _ (ltb (length header.names) (length names)) e in
          let (uncut, all_rows) = neither _ list.1.truncated rows_whole in
          let (header_whole_and_few, values_whole) = neither _ list.0 uncut in
          let (few, header_whole) =
            neither (ltb max_columns (length columns)) header.clipped header_whole_and_few in
          let names-columns : names ≡ columns =
            take-short max_columns columns (not_above _ _ few) in
          let headed : header.names ≡ names = h.whole header_whole (not_above _ _ all_names) in
          let kept-names : kept ≡ names =
            take-short (length header.names) names (not_above _ _ all_names) in
          (
            headed ∙ names-columns,
            f.added
                ∙ f.whole values_whole all_rows
                ∙ ap (λ ns. map (λ row. map (cell row) ns) rows) (kept-names ∙ names-columns),
          )

-- ===== src/Queries/Table/Steps.antt =====
-- What the loops over the header and over the rows keep, in `table` of agent/src/jobs/queries/sql.rs.
use mathlib.Core.List.{append-nil, append_assoc}
use renga.Prelude.{
  ℕ, suc, ◌+◌, ◌/◌, ◌≤◌, min, ◌≡◌, refl, sym, ap, ◌∙◌, Bool, neither, true, false, ◌||◌, List, [],
  ◌∷◌, ◌++◌, any, map, ltb, if◌then◌else◌, length, total, All, ◌⊎◌, inl, inr, arith,
}
use renga.Bytes.{Bytes}
use renga.Osquery.Client.{Row}
use renga.Queries.Bounded.{
  Bounded, push, clip, count_chars, cost, saturating_add, result_budget_bytes, usize_max, IsKept,
  push-IsKept, count-clip, clip-short,
}
use renga.Queries.Table.{
  Json, Header, max_column_name, max_cell, is_clipped, cell, header_each, fill,
}

-- A row has a value for each of the columns, each within its bound.
abbrev pub Fits : List Bytes → List Bytes → Type 0
Fits names values =
    (length values ≡ length names) × All (λ value. count_chars value ≤ max_cell) values

cells-Fits :
    (row : Row) (names : List Bytes)
    → Fits names (map (λ name. clip (cell row name) max_cell) names)
cells-Fits row [] = (refl, tt)
cells-Fits row (name ∷ names) =
    let (e, h) = cells-Fits row names in (ap suc e, (count-clip (cell row name) max_cell, h))

pub cons-lem :
    {A : Type 0} {x y : A} {xs ys : List A} → x ≡ y → xs ≡ ys → ◌≡◌ {A = List A} (x ∷ xs) (y ∷ ys)
cons-lem h k = cc

pub not_above : (a b : ℕ) → ltb a b ≡ false → b ≤ a
not_above a b h = ground arith

unclipped : (value : Bytes) (max : ℕ) → is_clipped value max ≡ false → clip value max ≡ value
unclipped value max h = clip-short value max (not_above _ _ h)

cells-short :
    (row : Row) (names : List Bytes)
    → any (λ name. is_clipped (cell row name) max_cell) names ≡ false
    → map (λ name. clip (cell row name) max_cell) names ≡ map (cell row) names
cells-short row [] h = refl
cells-short row (name ∷ names) h =
    let (here, there) = neither (is_clipped (cell row name) max_cell) _ h in
    cons-lem (unclipped (cell row name) max_cell here) (cells-short row names there)

module _ (json : Json) where
  pub record Headed (columns : List Bytes) (bytes : ℕ) (header : Header) : Type 0 where
    pub counted : header.bytes ≡ bytes + total (λ name. cost (json.text_size name)) header.names
    pub half : header.bytes ≤ result_budget_bytes / 2
    pub short : All (λ name. count_chars name ≤ max_column_name) header.names
    pub few : length header.names ≤ length columns
    pub whole :
        header.clipped ≡ false → length columns ≤ length header.names → header.names ≡ columns

  pub header_each-Headed :
      (columns : List Bytes) (bytes : ℕ)
      → bytes ≤ result_budget_bytes / 2
      → Headed columns bytes (header_each json columns bytes)
  unfolding header_each saturating_add
  header_each-Headed [] bytes h = record {
    counted = omega arith;
    half = h;
    short = tt;
    few = omega arith;
    whole = λ _ _. refl;
  }
  header_each-Headed (column ∷ columns) bytes h =
      go (λ k. header_each-Headed columns (bytes + size) k)
        (ltb (result_budget_bytes / 2) (min (bytes + size) usize_max)) refl
    where
      name : Bytes
      name = clip column max_column_name

      size : ℕ
      size = cost (json.text_size name)

      rest : Header
      rest = header_each json columns (bytes + size)

      go :
          (bytes + size ≤ result_budget_bytes / 2 → Headed columns (bytes + size) rest)
          → (full : Bool) → ltb (result_budget_bytes / 2) (min (bytes + size) usize_max) ≡ full
          → Headed (column ∷ columns) bytes (
              if full
              then record { names = []; bytes = bytes; clipped = is_clipped column max_column_name }
              else record {
                names = name ∷ rest.names;
                bytes = rest.bytes;
                clipped = is_clipped column max_column_name || rest.clipped;
              })
      go again true e = record {
        counted = omega arith;
        half = h;
        short = tt;
        few = omega arith;
        whole = λ _ l. absurd (omega arith);
      }
      go again false e =
          let k = again (ground arith) in
          record {
            counted = omega (arith, k.counted);
            half = k.half;
            short = (count-clip column max_column_name, k.short);
            few = omega (arith, k.few);
            whole = λ c l.
                let (here, there) = neither (is_clipped column max_column_name) rest.clipped c in
                cons-lem (unclipped column max_column_name here) (k.whole there (omega arith));
          }

  pub record Filled (names : List Bytes) (rows : List Row) (b : Bounded (List Bytes))
      (p : Bool × Bounded (List Bytes)) : Type 0 where
    pub new : List (List Bytes)
    pub added : p.1.items ≡ b.items ++ new
    pub kept : IsKept json.row_size p.1
    pub max_items : p.1.max_items ≡ b.max_items
    pub budget : p.1.budget ≡ b.budget
    pub fits : All (Fits names) new
    pub whole : p.0 ≡ false → p.1.truncated ≡ false → new ≡ map (λ row. map (cell row) names) rows

  pub fill-Filled :
      (names : List Bytes) (rows : List Row) (b : Bounded (List Bytes))
      → IsKept json.row_size b
      → Filled names rows b (fill json names rows b)
  unfolding fill
  fill-Filled names [] b k = record {
    new = [];
    added = sym (append-nil b.items);
    kept = k;
    max_items = refl;
    budget = refl;
    fits = tt;
    whole = λ _ _. refl;
  }
  fill-Filled names (row ∷ rows) b k =
      go (fill-Filled names rows p.1) (push-IsKept json.row_size values b k)
    where
      values : List Bytes
      values = map (λ name. clip (cell row name) max_cell) names

      cut : Bool
      cut = any (λ name. is_clipped (cell row name) max_cell) names

      p : Bool × Bounded (List Bytes)
      p = push json.row_size values b

      go :
          (IsKept json.row_size p.1 → Filled names rows p.1 (fill json names rows p.1))
          → IsKept json.row_size p.1
            × (p.1.max_items ≡ b.max_items)
            × (p.1.budget ≡ b.budget)
            × (((p.0 ≡ true) × (p.1.truncated ≡ b.truncated) × (p.1.items ≡ b.items ++ values ∷ []))
                ⊎ ((p.0 ≡ false) × (p.1.truncated ≡ true) × (p.1.items ≡ b.items)))
          → let rest = fill json names rows p.1 in
            Filled names (row ∷ rows) b (if p.0 then (cut || rest.0, rest.1) else (cut, p.1))
      go again (kept, most, budget, inl (pushed, _, items)) =
          let f = again kept in
          rw pushed (record {
            new = values ∷ f.new;
            added =
                f.added ∙ ap (λ xs. xs ++ f.new) items ∙ append_assoc b.items (values ∷ []) f.new;
            kept = f.kept;
            max_items = f.max_items ∙ most;
            budget = f.budget ∙ budget;
            fits = (cells-Fits row names, f.fits);
            whole = λ c t.
                let (here, there) = neither cut _ c in
                cons-lem (cells-short row names here) (f.whole there t);
          })
      go again (kept, most, budget, inr (stopped, truncated, items)) = rw stopped (record {
        new = [];
        added = items ∙ sym (append-nil b.items);
        kept = kept;
        max_items = most;
        budget = budget;
        fits = tt;
        whole = λ c t. absurd cc;
      })

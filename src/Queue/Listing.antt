-- ===== src/Queue/Listing.antt =====
-- What a queue directory lists after files are removed from it. A directory has one file for each
-- name.
use renga.Bytes.Equality.{bytes_eq_refl, bytes_eq_sym}
use renga.Prelude.{
  ◌≡◌, refl, sym, ap, ◌∙◌, inl, inr, Bool, false, not, some, List, [], ◌∷◌, filter, filter_map,
  filter_map-cons-none, filter_map-cons-some, All, Bool-cases, Option-cases, arith, subst,
}
use renga.Bytes.{Bytes, bytes_eq}
use renga.Queue.Entry.{Entry, File, entry_leb, insert, sort, entry_of, listed}
use renga.Queue.Disk.{without}
use renga.Queue.Sorting.{filter-sort}

abbrev pub not_at : Bytes → Entry → Bool
not_at path e = not (bytes_eq e.path path)

abbrev pub Distinct : List File → Type 0
Distinct [] = Unit {0}
Distinct (f ∷ fs) = All (λ g. bytes_eq g.name f.name ≡ false) fs × Distinct fs

abbrev pub Apart : Entry → List Entry → Type 0
Apart e es = All (λ f. bytes_eq f.path e.path ≡ false) es

abbrev pub DistinctPaths : List Entry → Type 0
DistinctPaths [] = Unit {0}
DistinctPaths (e ∷ es) = Apart e es × DistinctPaths es

Apart-insert :
    (e f : Entry) (es : List Entry)
    → bytes_eq f.path e.path ≡ false
    → Apart e es
    → Apart e (insert f es)
unfolding insert
Apart-insert e f [] h a = (h, tt)
Apart-insert e f (g ∷ es) h a = ground (arith, Apart-insert e f es h a.1)

insert-DistinctPaths :
    (e : Entry) (es : List Entry) → Apart e es → DistinctPaths es → DistinctPaths (insert e es)
unfolding insert
insert-DistinctPaths e [] a d = (tt, tt)
insert-DistinctPaths e (f ∷ es) a d = elim (Bool-cases (entry_leb e f)) [
  | inl h ↦ rw h (a, d)
  | inr h ↦ rw h (
    Apart-insert f e es (bytes_eq_sym e.path f.path ∙ a.0) d.0,
    insert-DistinctPaths e es a.1 d.1,
  )
]

Apart-sort : (e : Entry) (es : List Entry) → Apart e es → Apart e (sort es)
unfolding sort
Apart-sort e [] a = tt
Apart-sort e (f ∷ es) a = Apart-insert e f (sort es) a.0 (Apart-sort e es a.1)

sort-DistinctPaths : (es : List Entry) → DistinctPaths es → DistinctPaths (sort es)
unfolding sort
sort-DistinctPaths [] d = tt
sort-DistinctPaths (e ∷ es) d =
    insert-DistinctPaths e (sort es) (Apart-sort e es d.0) (sort-DistinctPaths es d.1)

filter-not_at : (e : Entry) (es : List Entry) → Apart e es → filter (not_at e.path) es ≡ es
filter-not_at e [] a = refl
filter-not_at e (f ∷ es) a = ground (arith, filter-not_at e es a.1)

-- Without the entry at its head a listing is its tail.
pub filter_head :
    (e : Entry) (es : List Entry) → DistinctPaths (e ∷ es) → filter (not_at e.path) (e ∷ es) ≡ es
filter_head e es d = ground (arith, bytes_eq_refl e.path, filter-not_at e es d.0)

pub without-Distinct : (path : Bytes) (fs : List File) → Distinct fs → Distinct (without path fs)
unfolding without
without-Distinct path [] d = tt
without-Distinct path (f ∷ fs) d = ground (arith, without-Distinct path fs d.1, kept fs d.0)
  where
    kept :
        (gs : List File)
        → All (λ g. bytes_eq g.name f.name ≡ false) gs
        → All (λ g. bytes_eq g.name f.name ≡ false) (filter (λ g. not (bytes_eq g.name path)) gs)
    kept [] a = tt
    kept (g ∷ gs) a = ground (arith, kept gs a.1)

module _ (is_uuid : Bytes → Bool) where
  pub path-entry_of : (f : File) (e : Entry) → entry_of is_uuid f ≡ some e → e.path ≡ f.name
  unfolding entry_of
  path-entry_of f e h = ground arith

  filter_map-without :
      (path : Bytes) (fs : List File)
      → filter_map (entry_of is_uuid) (without path fs)
        ≡ filter (not_at path) (filter_map (entry_of is_uuid) fs)
  unfolding without
  filter_map-without path [] = refl
  filter_map-without path (f ∷ fs) = elim (Option-cases (entry_of is_uuid f)) [
    | inl h ↦ ground (arith, filter_map-without path fs)
    | inr (e, h) ↦ ground (arith, filter_map-without path fs, path-entry_of f e h)
  ]

  -- Removing a file removes its entry from the listing, and nothing else.
  pub listed-without :
      (path : Bytes) (fs : List File)
      → listed is_uuid (without path fs) ≡ filter (not_at path) (listed is_uuid fs)
  unfolding listed
  listed-without path fs =
      ap sort (filter_map-without path fs)
      ∙ sym (filter-sort (not_at path) (filter_map (entry_of is_uuid) fs))

  entries-Apart :
      (f : File) (e : Entry) (fs : List File)
      → e.path ≡ f.name
      → All (λ g. bytes_eq g.name f.name ≡ false) fs
      → Apart e (filter_map (entry_of is_uuid) fs)
  entries-Apart f e [] h a = tt
  entries-Apart f e (g ∷ fs) h a = elim (Option-cases (entry_of is_uuid g)) [
    | inl k ↦ rw (filter_map-cons-none (entry_of is_uuid) g fs k) (entries-Apart f e fs h a.1)
    | inr (x, k) ↦
        rw (filter_map-cons-some (entry_of is_uuid) g fs k)
          (rw (path-entry_of g x k, h) a.0, entries-Apart f e fs h a.1)
  ]

  entries-Distinct :
      (fs : List File) → Distinct fs → DistinctPaths (filter_map (entry_of is_uuid) fs)
  entries-Distinct [] d = tt
  entries-Distinct (f ∷ fs) d = elim (Option-cases (entry_of is_uuid f)) [
    | inl h ↦ rw (filter_map-cons-none (entry_of is_uuid) f fs h) (entries-Distinct fs d.1)
    | inr (e, h) ↦
        rw (filter_map-cons-some (entry_of is_uuid) f fs h)
          (entries-Apart f e fs (path-entry_of f e h) d.0, entries-Distinct fs d.1)
  ]

  pub listed-DistinctPaths : (fs : List File) → Distinct fs → DistinctPaths (listed is_uuid fs)
  unfolding listed
  listed-DistinctPaths fs d = sort-DistinctPaths _ (entries-Distinct fs d)

  pub listed-without_head :
      (fs : List File) (e : Entry) (es : List Entry)
      → Distinct fs
      → listed is_uuid fs ≡ e ∷ es
      → listed is_uuid (without e.path fs) ≡ es
  listed-without_head fs e es d h =
      listed-without e.path fs
      ∙ ap (filter (not_at e.path)) h
      ∙ filter_head e es (subst DistinctPaths h (listed-DistinctPaths fs d))

-- ===== src/Queue/Sorting.antt =====
-- The listing of a queue directory: `sort` against `filter`, and the directory without one file.
use renga.Prelude.{
  ◌≡◌, refl, ◌∙◌, inl, inr, Bool, true, false, List, [], ◌∷◌, ◌++◌, if◌then◌else◌, filter, All,
  Bool-cases, arith,
}
use renga.Bytes.{bytes_leb_trans, bytes_leb_total}
use renga.Queue.Entry.{Entry, entry_leb, insert, sort}

entry_leb_trans :
    (a b c : Entry) → entry_leb a b ≡ true → entry_leb b c ≡ true → entry_leb a c ≡ true
unfolding entry_leb
entry_leb_trans a b c h k = ground (arith, bytes_leb_trans a.path b.path c.path)

pub entry_leb_total : (a b : Entry) → entry_leb a b ≡ false → entry_leb b a ≡ true
unfolding entry_leb
entry_leb_total a b h = ground (arith, bytes_leb_total a.path b.path)

-- Every entry of the list is at or behind `e` in queue order.
abbrev pub After : Entry → List Entry → Type 0
After e es = All (λ f. entry_leb e f ≡ true) es

abbrev pub InOrder : List Entry → Type 0
InOrder [] = Unit {0}
InOrder (e ∷ es) = After e es × InOrder es

After-insert :
    (e f : Entry) (es : List Entry) → entry_leb e f ≡ true → After e es → After e (insert f es)
unfolding insert
After-insert e f [] h a = (h, tt)
After-insert e f (g ∷ es) h a = ground (arith, After-insert e f es h a.1)

After-weaken : (e f : Entry) (es : List Entry) → entry_leb e f ≡ true → After f es → After e es
After-weaken e f [] h a = tt
After-weaken e f (g ∷ es) h a = (entry_leb_trans e f g h a.0, After-weaken e f es h a.1)

insert-InOrder : (e : Entry) (es : List Entry) → InOrder es → InOrder (insert e es)
unfolding insert
insert-InOrder e [] o = (tt, tt)
insert-InOrder e (f ∷ es) o = elim (Bool-cases (entry_leb e f)) [
  | inl h ↦ rw h ((h, After-weaken e f es h o.0), o)
  | inr h ↦ rw h (After-insert f e es (entry_leb_total e f h) o.0, insert-InOrder e es o.1)
]

pub sort-InOrder : (es : List Entry) → InOrder (sort es)
unfolding sort
sort-InOrder [] = tt
sort-InOrder (e ∷ es) = insert-InOrder e (sort es) (sort-InOrder es)

insert_first : (e : Entry) (es : List Entry) → After e es → insert e es ≡ e ∷ es
unfolding insert
insert_first e [] a = refl
insert_first e (f ∷ es) a = rw a.0

After-filter : (p : Entry → Bool) (e : Entry) (es : List Entry) → After e es → After e (filter p es)
After-filter p e [] a = tt
After-filter p e (f ∷ es) a = ground (arith, After-filter p e es a.1)

filter-insert :
    (p : Entry → Bool) (e : Entry) (es : List Entry)
    → InOrder es
    → filter p (insert e es) ≡ (if p e then insert e (filter p es) else filter p es)
unfolding insert
filter-insert p e [] o = ground arith
filter-insert p e (f ∷ es) o = elim (Bool-cases (entry_leb e f)) [
  | inl h ↦ rw h (
      ground
        (arith, insert_first e (filter p es) (After-filter p e es (After-weaken e f es h o.0))))
  | inr h ↦ rw h (ground (arith, filter-insert p e es o.1))
]

pub filter-sort : (p : Entry → Bool) (es : List Entry) → filter p (sort es) ≡ sort (filter p es)
unfolding sort
filter-sort p [] = refl
filter-sort p (e ∷ es) =
    filter-insert p e (sort es) (sort-InOrder es) ∙ ground (arith, filter-sort p es)

-- An entry behind all others sorts to the end.
insert-snoc :
    (e g : Entry) (es : List Entry)
    → entry_leb e g ≡ true
    → insert e (es ++ g ∷ []) ≡ insert e es ++ g ∷ []
unfolding insert
insert-snoc e g [] h = rw h
insert-snoc e g (f ∷ es) h = ground (arith, insert-snoc e g es h)

pub sort-snoc :
    (g : Entry) (es : List Entry)
    → All (λ e. entry_leb e g ≡ true) es
    → sort (es ++ g ∷ []) ≡ sort es ++ g ∷ []
unfolding sort insert
sort-snoc g [] a = refl
sort-snoc g (e ∷ es) a = rw (sort-snoc g es a.1) (insert-snoc e g (sort es) a.0)

-- A predicate of every entry holds after sorting too, and the other way round.
All-insert {κ} :
    (P : Entry → Type κ) (e : Entry) (es : List Entry) → P e → All P es → All P (insert e es)
unfolding insert
All-insert P e [] p a = (p, tt)
All-insert P e (f ∷ es) p a = elim (Bool-cases (entry_leb e f)) [
  | inl h ↦ rw h (p, a)
  | inr h ↦ rw h (a.0, All-insert P e es p a.1)
]

All-insert_inv {κ} :
    (P : Entry → Type κ) (e : Entry) (es : List Entry) → All P (insert e es) → P e × All P es
unfolding insert
All-insert_inv P e [] a = a
All-insert_inv P e (f ∷ es) a = elim (Bool-cases (entry_leb e f)) [
  | inl h ↦ rw h at a
  | inr h ↦
      let b : P f × All P (insert e es) = rw h at a in
      let r = All-insert_inv P e es b.1 in (r.0, (b.0, r.1))
]

pub All-sort {κ} : (P : Entry → Type κ) (es : List Entry) → All P es → All P (sort es)
unfolding sort
All-sort P [] a = tt
All-sort P (e ∷ es) a = All-insert P e (sort es) a.0 (All-sort P es a.1)

pub All-sort_inv {κ} : (P : Entry → Type κ) (es : List Entry) → All P (sort es) → All P es
unfolding sort
All-sort_inv P [] a = tt
All-sort_inv P (e ∷ es) a = let r = All-insert_inv P e (sort es) a in (r.0, All-sort_inv P es r.1)

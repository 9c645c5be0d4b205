-- ===== src/Queue/Offered.antt =====
-- What a delivery pass of agent/src/queue.rs offers of a directory: entries, their files and bodies.
use renga.Bytes.Equality.{bytes_eq_sound, bytes_eq_refl, bytes_eq_sym}
use renga.Prelude.{
  ℕ, suc, ◌+◌, ◌≡◌, refl, sym, ap, ◌∙◌, inl, inr, Bool, true, false, none, subst, some, List, [],
  ◌∷◌, filter_map, filter_map-cons-none, filter_map-cons-some, All, Bool-cases, Option-cases, arith,
  find,
}
use renga.Bytes.{Bytes, bytes_eq}
use renga.Queue.Entry.{Entry, File, entry_of, listed}
use renga.Queue.Disk.{Answer, done, vanished, failed, without}
use renga.Queue.Sorting.{All-sort}
use renga.Queue.Listing.{path-entry_of}
use renga.Queue.Delivery.{Delivery, accepted, refused}

-- What a pass did with the front of a queue, from offer number `n` and call number `call` of the file
-- system on: how many entries it took off, whether a refusal ended it, and the bodies that it
-- offered, each read whole from the entry's own file. An entry is taken off after an offer that was
-- not refused, or without one if its own file had vanished or could not be read; a refused offer is
-- the last one, and its entry is not taken off. Between two reads there are the calls that remove
-- the file and list the directory.
pub data Took (os : ℕ → Answer) (deliver : ℕ → Bytes → Delivery) (fs : List File)
    : ℕ → ℕ → ℕ → Bool → List Entry → List Bytes → Type 0 where
  end : (n call : ℕ) (es : List Entry) → Took os deliver fs n call 0 false es []
  vanishes :
      (e : Entry) {n call gone : ℕ} {stop : Bool} {es : List Entry} {bs : List Bytes}
      → os call ≡ vanished
      → Took os deliver fs n (2 + call) gone stop es bs
      → Took os deliver fs n call (suc gone) stop (e ∷ es) bs
  skip :
      (e : Entry) {n call gone : ℕ} {stop : Bool} {es : List Entry} {bs : List Bytes}
      → os call ≡ failed
      → Took os deliver fs n (3 + call) gone stop es bs
      → Took os deliver fs n call (suc gone) stop (e ∷ es) bs
  offered :
      (e : Entry) (f : File) {n call gone : ℕ} {stop : Bool} {es : List Entry} {bs : List Bytes}
      → os call ≡ done
      → find (λ g. bytes_eq g.name e.path) fs ≡ some f
      → ¬ (deliver n f.body ≡ refused)
      → Took os deliver fs (suc n) (3 + call) gone stop es bs
      → Took os deliver fs n call (suc gone) stop (e ∷ es) (f.body ∷ bs)
  stopped :
      (e : Entry) (f : File) {n call : ℕ} {es : List Entry}
      → os call ≡ done
      → find (λ g. bytes_eq g.name e.path) fs ≡ some f
      → deliver n f.body ≡ refused
      → Took os deliver fs n call 0 true (e ∷ es) (f.body ∷ [])

-- Every file of the one directory is, with its content, in the other.
abbrev pub Within : List File → List File → Type 0
Within fs gs =
    (name : Bytes) (f : File)
    → find (λ g. bytes_eq g.name name) fs ≡ some f
    → find (λ g. bytes_eq g.name name) gs ≡ some f

abbrev pub score : Delivery → ℕ
score accepted = 1
score _ = 0

-- How many of the bodies `deliver` accepted, the first being offer number `n`.
abbrev pub accepted_of : (ℕ → Bytes → Delivery) → ℕ → List Bytes → ℕ
accepted_of deliver n [] = 0
accepted_of deliver n (b ∷ bs) = score (deliver n b) + accepted_of deliver (suc n) bs

pub find-without :
    (path other : Bytes) (fs : List File)
    → bytes_eq other path ≡ false
    → find (λ g. bytes_eq g.name other) (without path fs) ≡ find (λ g. bytes_eq g.name other) fs
unfolding without
find-without path other [] h = refl
find-without path other (f ∷ fs) h = elim (Bool-cases (bytes_eq f.name path)) [
  | inl k ↦
      let e = bytes_eq_sound f.name path k in
      let away : bytes_eq f.name other ≡ false =
        bytes_eq_sym f.name other ∙ ap (bytes_eq other) e ∙ h in
      rw (k, away) (find-without path other fs h)
  | inr k ↦ ground (arith, find-without path other fs h)
]

find-without_self :
    (path : Bytes) (fs : List File) → find (λ g. bytes_eq g.name path) (without path fs) ≡ none
unfolding without
find-without_self path [] = refl
find-without_self path (f ∷ fs) = ground (arith, find-without_self path fs)

pub without-Within : (path : Bytes) (fs : List File) → Within (without path fs) fs
without-Within path fs name f h = elim (Bool-cases (bytes_eq name path)) [
  | inl k ↦
      let same = bytes_eq_sound name path k in
      absurd (
        cc (
          sym (find-without_self path fs)
          ∙ subst (λ n. find (λ g. bytes_eq g.name n) (without path fs) ≡ some f) same h))
  | inr k ↦ sym (find-without path name fs k) ∙ h
]

pub Took-Within :
    (os : ℕ → Answer) (deliver : ℕ → Bytes → Delivery) (fs gs : List File) {n call gone : ℕ}
    {stop : Bool} {es : List Entry} {bs : List Bytes}
    → Within fs gs
    → Took os deliver fs n call gone stop es bs
    → Took os deliver gs n call gone stop es bs
Took-Within os deliver fs gs w (end n call es) = end n call es
Took-Within os deliver fs gs w (vanishes e h o) = vanishes e h (Took-Within os deliver fs gs w o)
Took-Within os deliver fs gs w (skip e h o) = skip e h (Took-Within os deliver fs gs w o)
Took-Within os deliver fs gs w (offered e f r h k o) =
    offered e f r (w e.path f h) k (Took-Within os deliver fs gs w o)
Took-Within os deliver fs gs w (stopped e f r h k) = stopped e f r (w e.path f h) k

-- A file of the name `path`, which `fs::read` then reads.
abbrev pub HasFile : List File → Entry → Type 0
HasFile fs e = (f : File) × (find (λ g. bytes_eq g.name e.path) fs ≡ some f)

HasFile-cons : (g : File) (fs : List File) (e : Entry) → HasFile fs e → HasFile (g ∷ fs) e
HasFile-cons g fs e h = elim (Bool-cases (bytes_eq g.name e.path)) [
  | inl k ↦ (g, rw k)
  | inr k ↦ (h.0, rw k h.1)
]

All-HasFile-cons :
    (g : File) (fs : List File) (es : List Entry) → All (HasFile fs) es → All (HasFile (g ∷ fs)) es
All-HasFile-cons g fs [] a = tt
All-HasFile-cons g fs (e ∷ es) a = (HasFile-cons g fs e a.0, All-HasFile-cons g fs es a.1)

entries_have_files :
    (is_uuid : Bytes → Bool) (fs : List File) → All (HasFile fs) (filter_map (entry_of is_uuid) fs)
entries_have_files is_uuid [] = tt
entries_have_files is_uuid (g ∷ fs) =
    let rest = All-HasFile-cons g fs _ (entries_have_files is_uuid fs) in
    elim (Option-cases (entry_of is_uuid g)) [
      | inl h ↦ rw (filter_map-cons-none (entry_of is_uuid) g fs h) rest
      | inr (e, h) ↦
          rw (filter_map-cons-some (entry_of is_uuid) g fs h)
            ((g, rw (path-entry_of is_uuid g e h, bytes_eq_refl g.name)), rest)
    ]

-- Every listed entry has its file.
pub listed-HasFile :
    (is_uuid : Bytes → Bool) (fs : List File) → All (HasFile fs) (listed is_uuid fs)
unfolding listed
listed-HasFile is_uuid fs =
    All-sort (HasFile fs) (filter_map (entry_of is_uuid) fs) (entries_have_files is_uuid fs)

-- ===== src/Queue/Writing.antt =====
-- `write_atomically` of agent/src/queue.rs: what a directory lists after each step of a write.
use renga.Bytes.Equality.{bytes_eq_sound, bytes_eq_sym}
use renga.Prelude.{
  ℕ, ◌≡◌, refl, sym, ap, ◌∙◌, ◌⊎◌, inl, inr, Bool, true, false, none, some, List, [], ◌∷◌, ◌++◌,
  filter, filter_map, filter_map-cons-none, filter_map-cons-some, filter_map-append, All,
  Bool-cases, arith, subst, ok, err,
}
use renga.Bytes.{Bytes, bytes_eq}
use renga.Queue.Name.{parse_entry_name}
use renga.Queue.Entry.{Entry, File, entry_leb, sort, entry_of, listed}
use renga.Queue.Disk.{
  Answer, QueueError, cannot_sync, DiskQueue, without, remove, attempt, counted, present,
}
use renga.Queue.Sorting.{sort-snoc, All-sort_inv}
use renga.Queue.Listing.{Distinct, not_at, without-Distinct, listed-without}
use renga.Queue.Operations.{write_atomically, file_at, created, filled, renamed}
use renga.Queue.Dropping.{Unmoved}
use mathlib.Core.List.{append-nil}

-- Files that the queue did not name do not show.
module _ (is_uuid : Bytes → Bool) where
  entry_of-none : (f : File) → parse_entry_name is_uuid f.name ≡ none → entry_of is_uuid f ≡ none
  unfolding entry_of
  entry_of-none f h = ground arith

  entries-without_foreign :
      (tmp : Bytes) (fs : List File)
      → parse_entry_name is_uuid tmp ≡ none
      → filter_map (entry_of is_uuid) (without tmp fs) ≡ filter_map (entry_of is_uuid) fs
  unfolding without
  entries-without_foreign tmp [] h = refl
  entries-without_foreign tmp (f ∷ fs) h = elim (Bool-cases (bytes_eq f.name tmp)) [
    | inl k ↦ rw k (
        entries-without_foreign tmp fs h
        ∙ sym (
            filter_map-cons-none (entry_of is_uuid) f fs
              (entry_of-none f (ap (parse_entry_name is_uuid) (bytes_eq_sound f.name tmp k) ∙ h))))
    | inr k ↦ rw k (ground (arith, entries-without_foreign tmp fs h))
  ]

  pub listed-without_foreign :
      (tmp : Bytes) (fs : List File)
      → parse_entry_name is_uuid tmp ≡ none
      → listed is_uuid (without tmp fs) ≡ listed is_uuid fs
  unfolding listed
  listed-without_foreign tmp fs h = ap sort (entries-without_foreign tmp fs h)

  listed-snoc_foreign :
      (f : File) (fs : List File)
      → parse_entry_name is_uuid f.name ≡ none
      → listed is_uuid (fs ++ f ∷ []) ≡ listed is_uuid fs
  unfolding listed
  listed-snoc_foreign f fs h = ap sort (
      filter_map-append (entry_of is_uuid) fs (f ∷ [])
      ∙ ap (λ es. filter_map (entry_of is_uuid) fs ++ es)
          (filter_map-cons-none (entry_of is_uuid) f [] (entry_of-none f h))
      ∙ append-nil (filter_map (entry_of is_uuid) fs))

  -- A file whose entry is behind all others is listed last.
  listed-snoc :
      (f : File) (e : Entry) (fs : List File)
      → entry_of is_uuid f ≡ some e
      → All (λ g. entry_leb g e ≡ true) (listed is_uuid fs)
      → listed is_uuid (fs ++ f ∷ []) ≡ listed is_uuid fs ++ e ∷ []
  unfolding listed
  listed-snoc f e fs h a =
      ap sort (
        filter_map-append (entry_of is_uuid) fs (f ∷ [])
        ∙ ap (λ es. filter_map (entry_of is_uuid) fs ++ es)
            (filter_map-cons-some (entry_of is_uuid) f [] h))
      ∙ sort-snoc e (filter_map (entry_of is_uuid) fs) (All-sort_inv _ _ a)

  snoc-Distinct :
      (f : File) (fs : List File)
      → All (λ g. bytes_eq g.name f.name ≡ false) fs
      → Distinct fs
      → Distinct (fs ++ f ∷ [])
  snoc-Distinct f [] a d = (tt, tt)
  snoc-Distinct f (g ∷ fs) a d = (away fs d.0, snoc-Distinct f fs a.1 d.1)
    where
      away :
          (hs : List File)
          → All (λ h. bytes_eq h.name g.name ≡ false) hs
          → All (λ h. bytes_eq h.name g.name ≡ false) (hs ++ f ∷ [])
      away [] b = (bytes_eq_sym f.name g.name ∙ a.0, tt)
      away (h ∷ hs) b = (b.0, away hs b.1)

  absent-without :
      (name : Bytes) (fs : List File) → All (λ g. bytes_eq g.name name ≡ false) (without name fs)
  unfolding without
  absent-without name [] = tt
  absent-without name (f ∷ fs) = ground (arith, absent-without name fs)

  absent_of_not_present :
      (name : Bytes) (fs : List File)
      → present name fs ≡ false
      → All (λ g. bytes_eq g.name name ≡ false) fs
  absent_of_not_present name [] h = tt
  absent_of_not_present name (f ∷ fs) h = ground (arith, absent_of_not_present name fs)

  -- A new entry for `path`, behind all others and with a name of its own.
  pub record IsNew (path body : Bytes) (now : ℕ) (e : Entry) (es : List Entry) : Type 0 where
    pub named : entry_of is_uuid (file_at path now body) ≡ some e
    pub last : All (λ g. entry_leb g e ≡ true) es
    pub fresh : filter (not_at path) es ≡ es

  -- What a step of a write shows of the directory.
  pub record Shows (es : List Entry) (q r : DiskQueue) : Type 0 where
    pub entries : listed is_uuid r.files ≡ es
    pub distinct : Distinct r.files
    pub unmoved : Unmoved q r

  pub created-Shows :
      (tmp : Bytes) (now : ℕ) (q : DiskQueue)
      → parse_entry_name is_uuid tmp ≡ none
      → present tmp q.files ≡ false
      → Distinct q.files
      → Shows (listed is_uuid q.files) q (created tmp now q)
  created-Shows tmp now q f p d = record {
    entries = listed-snoc_foreign (file_at tmp now []) q.files f;
    distinct = snoc-Distinct (file_at tmp now []) q.files (absent_of_not_present tmp q.files p) d;
    unmoved = record { limits = refl; next_sequence = refl; sent = refl };
  }

  pub filled-Shows :
      (tmp body : Bytes) (now : ℕ) (q : DiskQueue)
      → parse_entry_name is_uuid tmp ≡ none
      → Distinct q.files
      → Shows (listed is_uuid q.files) q (filled tmp body now q)
  filled-Shows tmp body now q f d = record {
    entries = listed-snoc_foreign (file_at tmp now body) _ f ∙ listed-without_foreign tmp q.files f;
    distinct =
        snoc-Distinct (file_at tmp now body) _ (absent-without tmp q.files)
          (without-Distinct tmp q.files d);
    unmoved = record { limits = refl; next_sequence = refl; sent = refl };
  }

  pub renamed-Shows :
      (tmp path body : Bytes) (now : ℕ) (e : Entry) (q : DiskQueue)
      → parse_entry_name is_uuid tmp ≡ none
      → Distinct q.files
      → IsNew path body now e (listed is_uuid q.files)
      → Shows (listed is_uuid q.files ++ e ∷ []) q (renamed tmp path body now q)
  renamed-Shows tmp path body now e q f d n =
      let kept : listed is_uuid (without path (without tmp q.files)) ≡ listed is_uuid q.files =
        listed-without is_uuid path (without tmp q.files)
        ∙ ap (filter (not_at path)) (listed-without_foreign tmp q.files f)
        ∙ n.fresh in
      record {
        entries =
            listed-snoc (file_at path now body) e _ n.named (rw kept n.last)
            ∙ ap (λ es. es ++ e ∷ []) kept;
        distinct =
            snoc-Distinct (file_at path now body) _ (absent-without path _)
              (without-Distinct path _ (without-Distinct tmp q.files d));
        unmoved = record { limits = refl; next_sequence = refl; sent = refl };
      }

module _ (is_uuid : Bytes → Bool) (os : ℕ → Answer) where
  -- A write that succeeds made its temporary file anew and went through every step.
  pub write_atomically_steps :
      (tmp path body : Bytes) (now : ℕ) (q r : DiskQueue)
      → write_atomically is_uuid os tmp path body now q ≡ (ok tt, r)
      → (present tmp q.files ≡ false)
        × (r
            ≡ counted (
                counted (
                  renamed tmp path body now
                    (counted (filled tmp body now (counted (created tmp now q)))))))
  unfolding write_atomically attempt remove
  write_atomically_steps tmp path body now q r h = ground arith

  -- A successful write adds the new entry at the end of the queue.
  pub write_atomically-ok :
      (tmp path body : Bytes) (now : ℕ) (e : Entry) (q r : DiskQueue)
      → parse_entry_name is_uuid tmp ≡ none
      → Distinct q.files
      → IsNew is_uuid path body now e (listed is_uuid q.files)
      → write_atomically is_uuid os tmp path body now q ≡ (ok tt, r)
      → Shows is_uuid (listed is_uuid q.files ++ e ∷ []) q r
  write_atomically-ok tmp path body now e q r f d n h =
      let (absent, same) = write_atomically_steps tmp path body now q r h in
      let c = created-Shows is_uuid tmp now q f absent d in
      let l = filled-Shows is_uuid tmp body now (counted (created tmp now q)) f c.distinct in
      let listing : listed is_uuid (filled tmp body now (created tmp now q)).files
          ≡ listed is_uuid q.files =
        l.entries ∙ c.entries in
      let m =
        renamed-Shows is_uuid tmp path body now e
          (counted (filled tmp body now (counted (created tmp now q)))) f l.distinct
          (rw listing n) in
      record {
        entries =
            ap (λ t. listed is_uuid t.files) same ∙ m.entries ∙ ap (λ es. es ++ e ∷ []) listing;
        distinct = subst Distinct (ap (λ t. t.files) (sym same)) m.distinct;
        unmoved = ground arith;
      }

  -- A write that fails leaves the queue as it was, unless only the sync of the directory failed,
  -- if the temporary file's name is not one that the queue lists.
  pub write_atomically-err :
      (tmp path body : Bytes) (now : ℕ) (x : QueueError) (q r : DiskQueue)
      → parse_entry_name is_uuid tmp ≡ none
      → write_atomically is_uuid os tmp path body now q ≡ (err x, r)
      → (listed is_uuid r.files ≡ listed is_uuid q.files) ⊎ (x ≡ cannot_sync)
  unfolding write_atomically attempt remove
  write_atomically-err tmp path body now x q r f h =
      let made = q.files ++ file_at tmp now [] ∷ [] in
      let full = without tmp made ++ file_at tmp now body ∷ [] in
      ground (
        arith,
        listed-snoc_foreign is_uuid (file_at tmp now []) q.files f,
        listed-snoc_foreign is_uuid (file_at tmp now body) (without tmp made) f,
        listed-without_foreign is_uuid tmp q.files f,
        listed-without_foreign is_uuid tmp made f,
        listed-without_foreign is_uuid tmp full f,
      )

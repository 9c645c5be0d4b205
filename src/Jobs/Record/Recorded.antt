-- ===== src/Jobs/Record/Recorded.antt =====
-- The calls of agent/src/jobs/record.rs that succeed, and full records.
use renga.Prelude.{
  ℕ, zero, suc, ◌≤◌, ◌≡◌, refl, ap, inl, inr, true, false, not, none, some, List, [], ◌∷◌, ◌++◌,
  ltb, length, filter, find, any, All, filter-All, Bool-cases, Option-cases, arith, ok, err, subst,
}
use renga.Bytes.{Bytes}
use renga.Jobs.Record.{
  RetryClass, Outcome, JobRecord, JobRecords, max_records, full, Write, written, unwritten,
  unsynced, is_job, is_retained, get, remove_expired, evict, shrink, saved, persist, new_record,
  make_place, start, update, finish,
}
use renga.Jobs.Record.Kept.{persist-find}

evict-length : (rs xs : List JobRecord) → evict rs ≡ some xs → suc (length xs) ≡ length rs
unfolding evict
evict-length [] xs e = cc
evict-length (x ∷ rs) xs e = elim (Bool-cases x.confirmed) [
  | inl y ↦ ground (arith, e, y)
  | inr n ↦ elim (Option-cases (evict rs)) [
    | inl k ↦ absurd (ground (arith, e, n, k))
    | inr (ys, k) ↦ ground (arith, e, n, k, evict-length rs ys k)
  ]
]

shrink-bound :
    (fuel : ℕ) (rs : List JobRecord)
    → length rs ≤ fuel
    → (shrink fuel rs).0 ≡ true
    → length (shrink fuel rs).1 ≤ max_records
unfolding shrink
shrink-bound zero rs b h = omega (arith, b)
shrink-bound (suc fuel) rs b h = elim (Bool-cases (ltb max_records (length rs))) [
  | inr n ↦ rw n (ground (arith, n))
  | inl y ↦ elim (Option-cases (evict rs)) [
    | inl k ↦ absurd (ground (arith, h, y, k))
    | inr (xs, k) ↦
        rw (y, k)
          (shrink-bound fuel xs (omega (arith, evict-length rs xs k)) (ground (arith, h, y, k)))
  ]
]

persist-ok :
    (now : ℕ) (w : Write) (s s' : JobRecords)
    → persist now w s ≡ (ok tt, s')
    → (s'.disk ≡ s'.records) × (length s'.records ≤ max_records)
unfolding persist saved remove_expired
persist-ok now w s s' h =
    let kept = remove_expired now s.records in
    elim (Bool-cases (shrink (length kept) kept).0) [
      | inr n ↦ absurd (ground (arith, h, n))
      | inl y ↦ by_write w (shrink-bound (length kept) kept (omega arith) y) (ground (arith, h, y))
    ]
  where
    by_write :
        (v : Write)
        → length (shrink (length (remove_expired now s.records)) (remove_expired now s.records)).1
          ≤ max_records
        → saved v
            (shrink (length (remove_expired now s.records)) (remove_expired now s.records)).1
            s
          ≡ (ok tt, s')
        → (s'.disk ≡ s'.records) × (length s'.records ≤ max_records)
    by_write written b k =
        (ground (arith, k), subst (λ t. length t.records ≤ max_records) (ap (λ p. p.1) k) b)
    by_write unwritten b k = cc
    by_write unsynced b k = cc

find-fresh :
    (id : ℕ) (x : JobRecord) (rs : List JobRecord)
    → is_job id x ≡ true
    → find (is_job id) (filter (λ r. not (is_job id r)) rs ++ x ∷ []) ≡ some x
find-fresh id x [] h = ground arith
find-fresh id x (r ∷ rs) h = ground (arith, find-fresh id x rs h)

-- A job that was started is recorded afresh, in memory and on the disk alike, and there are at most
-- 128 records.
pub start_recorded :
    (id : ℕ) (capability : Bytes) (class : RetryClass) (now : ℕ) (w : Write) (s s' : JobRecords)
    → start id capability class now w s ≡ (ok tt, s')
    → (get id s' ≡ some (new_record id capability class now))
      × (s'.disk ≡ s'.records)
      × (length s'.records ≤ max_records)
unfolding start get
start_recorded id capability class now w s s' h =
    elim (Option-cases (make_place id (remove_expired now s.records))) [
      | inl e ↦ absurd (ground (arith, h, e))
      | inr (xs, e) ↦
          let fresh = new_record id capability class now in
          let t : JobRecords = record s {
            records = filter (λ r. not (is_job id r)) xs ++ fresh ∷ [];
          } in
          let k : persist now w t ≡ (ok tt, s') = ground (arith, h, e) in
          let found =
            persist-find id fresh now w t refl (ground arith)
              (find-fresh id fresh xs (ground arith)) in
          let (same, few) = persist-ok now w t s' k in
          (subst (λ x. find (is_job id) x.records ≡ some fresh) (ap (λ p. p.1) k) found, same, few)
    ]

update-find_same :
    (id : ℕ) (f : JobRecord → JobRecord) (r : JobRecord) (rs : List JobRecord)
    → ((x : JobRecord) → (f x).job_id ≡ x.job_id)
    → find (is_job id) rs ≡ some r
    → find (is_job id) (update id f rs) ≡ some (f r)
unfolding update
update-find_same id f r [] k h = cc
update-find_same id f r (x ∷ rs) k h = elim (Bool-cases (is_job id x)) [
  | inl y ↦ let same : x ≡ r = ground (arith, h, y) in ground (arith, y, k x, ap f same)
  | inr n ↦ ground (arith, n, update-find_same id f r rs k)
]

-- An outcome that was recorded is what a redelivery of the job finds, in memory and on the disk
-- alike, still to be acknowledged, if the job was started less than eight days ago.
pub finish_recorded :
    (id : ℕ) (outcome : Outcome) (now : ℕ) (w : Write) (r : JobRecord) (s s' : JobRecords)
    → get id s ≡ some r
    → is_retained now r ≡ true
    → finish id outcome now w s ≡ (ok tt, s')
    → (get id s' ≡ some (record r { outcome = some outcome; confirmed = false }))
      × (s'.disk ≡ s'.records)
      × (length s'.records ≤ max_records)
unfolding finish get
finish_recorded id outcome now w r s s' g t h =
    let f = λ (x : JobRecord). record x { outcome = some outcome; confirmed = false } in
    let u : JobRecords = record s { records = update id f s.records } in
    let k : persist now w u ≡ (ok tt, s') = ground (arith, h, g) in
    let found =
      persist-find id (f r) now w u refl t (update-find_same id f r s.records (λ _. refl) g) in
    let (same, few) = persist-ok now w u s' k in
    (subst (λ x. find (is_job id) x.records ≡ some (f r)) (ap (λ p. p.1) k) found, same, few)

evict-unresolved : (rs : List JobRecord) → All (λ r. r.confirmed ≡ false) rs → evict rs ≡ none
unfolding evict
evict-unresolved [] a = refl
evict-unresolved (r ∷ rs) a = ground (arith, a.0, evict-unresolved rs a.1)

-- With 128 or more unresolved jobs, none of them expired and none of them this one, a new job is
-- refused and every record stays as it was.
pub start_full :
    (id : ℕ) (capability : Bytes) (class : RetryClass) (now : ℕ) (w : Write) (s : JobRecords)
    → max_records ≤ length s.records
    → any (is_job id) s.records ≡ false
    → All (λ r. r.confirmed ≡ false) s.records
    → All (λ r. is_retained now r ≡ true) s.records
    → start id capability class now w s ≡ (err full, s)
unfolding start remove_expired make_place
start_full id capability class now w s b n a t =
    let kept : remove_expired now s.records ≡ s.records =
      filter-All (is_retained now) s.records t in
    let place : make_place id s.records ≡ none =
      rw (make_place, n, evict-unresolved s.records a) (ground (arith, b)) in
    rw (start, kept, place, kept) refl

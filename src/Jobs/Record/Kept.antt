-- ===== src/Jobs/Record/Kept.antt =====
-- What the calls of agent/src/jobs/record.rs do to the records of other jobs.
use renga.Prelude.{
  ℕ, zero, suc, ◌≡◌, refl, ap, ◌∙◌, inl, inr, Bool, true, false, ◌&&◌, not, some, List, [], ◌∷◌,
  ◌++◌, ltb, leb, ◌==◌, length, filter, find, any, Bool-cases, Option-cases, arith, Result, subst,
}
use renga.Bytes.{Bytes}
use renga.Jobs.Record.{
  RetryClass, Outcome, JobRecord, JobRecords, max_records, RecordError, Write, written, unwritten,
  unsynced, is_job, is_retained, get, remove_expired, evict, shrink, saved, persist, new_record,
  make_place, start, update, finish, confirm, confirm_found,
}

evict-find :
    (id : ℕ) (r : JobRecord) (rs xs : List JobRecord)
    → evict rs ≡ some xs
    → r.confirmed ≡ false
    → find (is_job id) rs ≡ some r
    → find (is_job id) xs ≡ some r
unfolding evict
evict-find id r [] xs e c h = cc
evict-find id r (x ∷ rs) xs e c h = elim (Bool-cases x.confirmed) [
  | inl y ↦ ground (arith, e, c, h, y)
  | inr n ↦ elim (Option-cases (evict rs)) [
    | inl k ↦ absurd (ground (arith, e, n, k))
    | inr (ys, k) ↦
        let same : x ∷ ys ≡ xs = ground (arith, e, n, k) in
        subst (λ zs. find (is_job id) zs ≡ some r) same
          (ground (arith, h, evict-find id r rs ys k c))
  ]
]

shrink-find :
    (id : ℕ) (r : JobRecord) (fuel : ℕ) (rs : List JobRecord)
    → r.confirmed ≡ false
    → find (is_job id) rs ≡ some r
    → find (is_job id) (shrink fuel rs).1 ≡ some r
unfolding shrink
shrink-find id r zero rs c h = h
shrink-find id r (suc fuel) rs c h = elim (Bool-cases (ltb max_records (length rs))) [
  | inr n ↦ rw n h
  | inl y ↦ elim (Option-cases (evict rs)) [
    | inl k ↦ rw (y, k) h
    | inr (xs, k) ↦ rw (y, k) (shrink-find id r fuel xs c (evict-find id r rs xs k c h))
  ]
]

pub filter-find :
    (id : ℕ) (r : JobRecord) (p : JobRecord → Bool) (rs : List JobRecord)
    → p r ≡ true
    → find (is_job id) rs ≡ some r
    → find (is_job id) (filter p rs) ≡ some r
filter-find id r p [] k h = cc
filter-find id r p (x ∷ rs) k h = elim (Bool-cases (is_job id x)) [
  | inl y ↦
      let same : x ≡ r = ground (arith, h, y) in
      let q : p x ≡ true = ap p same ∙ k in ground (arith, q, y, same)
  | inr n ↦ ground (arith, n, h, filter-find id r p rs k)
]

pub saved-records :
    (w : Write) (rs : List JobRecord) (s : JobRecords) → (saved w rs s).1.records ≡ rs
unfolding saved
saved-records written rs s = refl
saved-records unwritten rs s = refl
saved-records unsynced rs s = refl

-- `persist` drops expired and confirmed records only.
pub persist-find :
    (id : ℕ) (r : JobRecord) (now : ℕ) (w : Write) (s : JobRecords)
    → r.confirmed ≡ false
    → is_retained now r ≡ true
    → find (is_job id) s.records ≡ some r
    → find (is_job id) (persist now w s).1.records ≡ some r
unfolding persist remove_expired
persist-find id r now w s c t h =
    let kept = remove_expired now s.records in
    let found =
      shrink-find id r (length kept) kept c (filter-find id r (is_retained now) s.records t h) in
    elim (Bool-cases (shrink (length kept) kept).0) [
      | inl y ↦ rw (y, saved-records w (shrink (length kept) kept).1 s) found
      | inr n ↦ rw n found
    ]

find-snoc :
    (id : ℕ) (r x : JobRecord) (rs : List JobRecord)
    → find (is_job id) rs ≡ some r
    → find (is_job id) (rs ++ x ∷ []) ≡ some r
find-snoc id r x [] h = cc
find-snoc id r x (y ∷ rs) h = ground (arith, find-snoc id r x rs)

update-find :
    (id other : ℕ) (f : JobRecord → JobRecord) (r : JobRecord) (rs : List JobRecord)
    → (id == other) ≡ false
    → ((x : JobRecord) → (f x).job_id ≡ x.job_id)
    → find (is_job id) rs ≡ some r
    → find (is_job id) (update other f rs) ≡ some r
unfolding update
update-find id other f r [] d k h = cc
update-find id other f r (x ∷ rs) d k h = ground (arith, k x, update-find id other f r rs d k)

make_place-find :
    (id other : ℕ) (r : JobRecord) (rs xs : List JobRecord)
    → make_place other rs ≡ some xs
    → r.confirmed ≡ false
    → find (is_job id) rs ≡ some r
    → find (is_job id) xs ≡ some r
unfolding make_place
make_place-find id other r rs xs e c h =
    elim (Bool-cases (not (any (is_job other) rs) && leb max_records (length rs))) [
      | inl y ↦ evict-find id r rs xs (ground (arith, e, y)) c h
      | inr n ↦
          let same : rs ≡ xs = ground (arith, e, n) in
          subst (λ zs. find (is_job id) zs ≡ some r) same h
    ]

module _ (id other : ℕ) (r : JobRecord) (now : ℕ) (w : Write) (s : JobRecords) where
  -- The record of job `id` is still `r` after an operation.
  abbrev pub Remembered : Result (Unit {0}) RecordError × JobRecords → Type 0
  Remembered p = get id p.1 ≡ some r

  start-Remembered :
      (capability : Bytes) (class : RetryClass)
      → (id == other) ≡ false
      → r.job_id ≡ id
      → r.confirmed ≡ false
      → is_retained now r ≡ true
      → get id s ≡ some r
      → Remembered (start other capability class now w s)
  unfolding start get remove_expired
  start-Remembered capability class d j c t h =
      let kept = remove_expired now s.records in
      let found = filter-find id r (is_retained now) s.records t h in
      elim (Option-cases (make_place other kept)) [
        | inl e ↦ rw (start, e) found
        | inr (xs, e) ↦
            rw (start, e)
              (persist-find id r now w _ c t (
                find-snoc id r (new_record other capability class now) _ (
                  filter-find id r (λ x. not (is_job other x)) xs (ground (arith, j, d))
                    (make_place-find id other r kept xs e c found))))
      ]

  finish-Remembered :
      (outcome : Outcome)
      → (id == other) ≡ false
      → r.confirmed ≡ false
      → is_retained now r ≡ true
      → get id s ≡ some r
      → Remembered (finish other outcome now w s)
  unfolding finish get
  finish-Remembered outcome d c t h = elim (Option-cases (find (is_job other) s.records)) [
    | inl e ↦ rw (finish, e) h
    | inr (x, e) ↦
        rw (finish, e)
          (persist-find id r now w _ c t (update-find id other _ r s.records d (λ _. refl) h))
  ]

  confirm-Remembered :
      (id == other) ≡ false
      → r.confirmed ≡ false
      → is_retained now r ≡ true
      → get id s ≡ some r
      → Remembered (confirm other now w s)
  unfolding confirm get confirm_found
  confirm-Remembered d c t h = elim (Option-cases (find (is_job other) s.records)) [
    | inl e ↦ rw (confirm, e) h
    | inr (x, e) ↦ elim (Option-cases x.outcome) [
      | inl o ↦ rw (confirm, e, o) h
      | inr (y, o) ↦
          rw (confirm, e, o)
            (persist-find id r now w _ c t (update-find id other _ r s.records d (λ _. refl) h))
    ]
  ]

  -- Starting, finishing or confirming one job never changes or drops the record of another that is
  -- unresolved and not expired, however full the records are and however the write ends.
  pub unresolved_kept :
      (capability : Bytes) (class : RetryClass) (outcome : Outcome)
      → (id == other) ≡ false
      → r.job_id ≡ id
      → r.confirmed ≡ false
      → is_retained now r ≡ true
      → get id s ≡ some r
      → Remembered (start other capability class now w s)
        × Remembered (finish other outcome now w s)
        × Remembered (confirm other now w s)
  unresolved_kept capability class outcome d j c t h = (
    start-Remembered capability class d j c t h,
    finish-Remembered outcome d c t h,
    confirm-Remembered d c t h,
  )

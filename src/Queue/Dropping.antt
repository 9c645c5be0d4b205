-- ===== src/Queue/Dropping.antt =====
-- What dropping entries does to the directory: `expire` and the loop of `enqueue` against the
-- plain lists of entries that they mean.
use renga.Queue.Listing.{Distinct, without-Distinct, listed-without_head}
use renga.Prelude.{
  ℕ, ◌≡◌, Bool, not, List, [], ◌∷◌, if◌then◌else◌, length, filter, arith, ok, resume, resume-eq-ok,
  Bool-cases, ap, sym, ◌∙◌, inl, inr, subst, true, false, ◌-◌, refl,
}
use renga.Bytes.{Bytes}
use renga.Queue.Entry.{Entry, QueueLimits, total_bytes, listed}
use renga.Queue.Disk.{Answer, DiskQueue, without, remove, read_directory}
use renga.Queue.Operations.{
  publish_health, drop_for_age, drop_for_space, fits, is_expired, make_room,
}

-- What no part of a drop touches.
pub record Unmoved (q r : DiskQueue) : Type 0 where
  pub limits : r.limits ≡ q.limits
  pub next_sequence : r.next_sequence ≡ q.next_sequence
  pub sent : r.sent ≡ q.sent

-- The entries that `enqueue` keeps for a new one of `size` bytes: all behind the first point where
-- it fits.
unfoldable pub survivors : QueueLimits → ℕ → List Entry → List Entry
survivors l size [] = []
survivors l size (e ∷ es) =
    if fits l size (length (e ∷ es)) (total_bytes (e ∷ es)) then e ∷ es else survivors l size es

-- The entries that are not too old.
abbrev pub unexpired : QueueLimits → ℕ → List Entry → List Entry
unexpired l now = filter (λ e. not (is_expired l now e))

module _ (is_uuid : Bytes → Bool) (os : ℕ → Answer) where
  pub files-publish_health :
      (q : DiskQueue)
      → ((publish_health is_uuid os q).1.files ≡ q.files)
        × Unmoved q (publish_health is_uuid os q).1
        × ((publish_health is_uuid os q).0 ≡ ok tt)
  unfolding publish_health read_directory
  files-publish_health q = ground arith

  abbrev pub Dropped : Bytes → DiskQueue → DiskQueue → Type 0
  Dropped path q r = (r.files ≡ without path q.files) × Unmoved q r

  pub drop_for_space_lem :
      (e : Entry) (q r : DiskQueue)
      → drop_for_space is_uuid os e q ≡ (ok tt, r)
      → Dropped e.path q r
  unfolding drop_for_space publish_health read_directory remove
  drop_for_space_lem e q r h = ground arith

  pub drop_for_age_lem :
      (e : Entry) (q r : DiskQueue) → drop_for_age is_uuid os e q ≡ (ok tt, r) → Dropped e.path q r
  unfolding drop_for_age publish_health read_directory remove
  drop_for_age_lem e q r h = ground arith

  make_room_round :
      (size : ℕ) (e : Entry) (es : List Entry) (q r : DiskQueue)
      → Distinct q.files
      → listed is_uuid q.files ≡ e ∷ es
      → Dropped e.path q r
      → Distinct r.files × (listed is_uuid r.files ≡ es)
  make_room_round size e es q r d h s = (
    rw s.0 (without-Distinct e.path q.files d),
    rw s.0 (listed-without_head is_uuid q.files e es d h),
  )

  make_room-fits :
      (size : ℕ) (e : Entry) (es : List Entry) (remaining bytes : ℕ) (q : DiskQueue)
      → fits q.limits size remaining bytes ≡ true
      → make_room is_uuid os size (e ∷ es) remaining bytes q ≡ (ok tt, q)
  unfolding make_room
  make_room-fits size e es remaining bytes q f = rw f

  make_room-full :
      (size : ℕ) (e : Entry) (es : List Entry) (remaining bytes : ℕ) (q : DiskQueue)
      → fits q.limits size remaining bytes ≡ false
      → make_room is_uuid os size (e ∷ es) remaining bytes q
        ≡ resume
            (drop_for_space is_uuid os e q)
            (λ _. make_room is_uuid os size es (remaining - 1) (bytes - e.bytes))
  unfolding make_room
  make_room-full size e es remaining bytes q f = rw f

  abbrev pub Survived : ℕ → List Entry → DiskQueue → DiskQueue → Type 0
  Survived size es q r =
      (listed is_uuid r.files ≡ survivors q.limits size es) × Distinct r.files × Unmoved q r

  Survived-full :
      (size : ℕ) (e : Entry) (es : List Entry) (q s r : DiskQueue)
      → fits q.limits size (length (e ∷ es)) (total_bytes (e ∷ es)) ≡ false
      → Unmoved q s
      → Survived size es s r
      → Survived size (e ∷ es) q r
  unfolding survivors
  Survived-full size e es q s r f u v =
      (v.0 ∙ ap (λ l. survivors l size es) u.limits ∙ rw f, v.1, ground arith)

  -- The loop of `enqueue`, when it ends without an error, leaves exactly the survivors queued.
  pub make_room-survivors :
      (size : ℕ) (es : List Entry) (q r : DiskQueue)
      → Distinct q.files
      → listed is_uuid q.files ≡ es
      → make_room is_uuid os size es (length es) (total_bytes es) q ≡ (ok tt, r)
      → Survived size es q r
  make_room-survivors size [] q r d l h = unfold make_room survivors in ground arith
  make_room-survivors size (e ∷ es) q r d l h =
      elim (Bool-cases (fits q.limits size (length (e ∷ es)) (total_bytes (e ∷ es)))) [
        | inl f ↦
            let same : q ≡ r = cc (make_room-fits size e es _ _ q f) in
            subst (Survived size (e ∷ es) q) same (
              l ∙ unfold survivors in rw f,
              d,
              record { limits = refl; next_sequence = refl; sent = refl },
            )
        | inr f ↦
            let (_, s, first, rest) =
              resume-eq-ok (drop_for_space is_uuid os e q) _
                (sym (make_room-full size e es _ _ q f) ∙ h) in
            let dropped = drop_for_space_lem e q s first in
            let (d', l') = make_room_round size e es q s d l dropped in
            let left : length (e ∷ es) - 1 ≡ length es = omega arith in
            let left_bytes : total_bytes (e ∷ es) - e.bytes ≡ total_bytes es = omega arith in
            Survived-full size e es q s r f dropped.1
              (make_room-survivors size es s r d' l' (rw (← left, ← left_bytes) rest))
      ]

-- ===== src/Queue/Enqueue.antt =====
-- `enqueue` of agent/src/queue.rs against a plain list of entries.
use renga.Prelude.{
  ℕ, suc, ◌/◌, ◌%◌, ◌^◌, ◌≤◌, ◌<◌, ◌≡◌, refl, sym, ap, ◌∙◌, inl, inr, max, Bool, true, List, [],
  ◌∷◌, ◌++◌, ltb, length, filter, filter_map, All, Bool-cases, arith, subst, Result, ok, err,
  resume, resume-eq-ok, all, ◌>>=◌,
}
use renga.Bytes.{Bytes, u64_mod}
use renga.Queue.Name.{nanos_per_second}
use renga.Queue.Entry.{QueueLimits, Entry, File, entry_of, listed, total_bytes}
use renga.Queue.Disk.{Answer, QueueError, too_large, DiskQueue, read_directory}
use renga.Queue.Sorting.{filter-sort, sort-InOrder, InOrder}
use renga.Queue.Listing.{Distinct}
use renga.Queue.Operations.{
  entries, publish_health, expire, make_room, enqueue, next_after, append_entry, note_written,
}
use renga.Queue.Dropping.{Unmoved, survivors, unexpired, make_room-survivors}
use renga.Queue.Expiry.{expire-unexpired}
use renga.Queue.Name.RoundTrip.{parse_entry_name-temporary}
use renga.Queue.Sequence.{
  sequence_for, new_entry, Countable, All-filter, All-survivors, next_after-bounds, NamedBy,
  listed-NamedBy, new_entry-IsNew,
}
use renga.Queue.Writing.{write_atomically-ok}

-- The queue that `enqueue` leaves, as a plain list: what was too old is gone, the oldest of the rest
-- made room, and the new entry stands last.
unfoldable pub enqueued : QueueLimits → ℕ → ℕ → Bytes → Bytes → List Entry → List Entry
enqueued l next now entry_id body es =
    let current = unexpired l now es in
    survivors l (length body) current
    ++ new_entry (max next (next_after current)) now entry_id body ∷ []

All-raise :
    (m n : ℕ) (es : List Entry)
    → m ≤ n
    → All (λ e. e.sequence < m) es
    → All (λ e. e.sequence < n) es
All-raise m n [] h a = tt
All-raise m n (e ∷ es) h a = (omega arith, All-raise m n es h a.1)

filter-listed-InOrder :
    (is_uuid : Bytes → Bool) (p : Entry → Bool) (fs : List File)
    → InOrder (filter p (listed is_uuid fs))
unfolding listed
filter-listed-InOrder is_uuid p fs =
    rw (filter-sort p (filter_map (entry_of is_uuid) fs)) (sort-InOrder _)

module _ (is_uuid : Bytes → Bool) (os : ℕ → Answer) where
  -- What a successful `enqueue` does to the queue.
  abbrev pub Appended : Bytes → Bytes → ℕ → DiskQueue → DiskQueue → Type 0
  Appended entry_id body now q r =
      (listed is_uuid r.files
        ≡ enqueued q.limits q.next_sequence now entry_id body (listed is_uuid q.files))
      × Distinct r.files
      × (r.next_sequence
          ≡ suc (sequence_for q (unexpired q.limits now (listed is_uuid q.files))) % u64_mod)
      × (r.limits ≡ q.limits)
      × (r.sent ≡ q.sent)

  pub entries_lem :
      (q s : DiskQueue) (es : List Entry)
      → entries is_uuid os q ≡ (ok es, s)
      → (es ≡ listed is_uuid q.files) × (s.files ≡ q.files) × Unmoved q s
  unfolding entries read_directory
  entries_lem q s es h = ground arith

  pub note_written_lem :
      (n : ℕ) (p : Result (Unit {0}) QueueError × DiskQueue) (r : DiskQueue)
      → note_written is_uuid os n p ≡ (ok tt, r)
      → (t : DiskQueue) × (p ≡ (ok tt, t))
        × (r.files ≡ t.files)
        × (r.limits ≡ t.limits)
        × (r.sent ≡ t.sent)
        × (r.next_sequence ≡ suc n % u64_mod)
  unfolding note_written publish_health read_directory
  note_written_lem n (ok tt, t) r h =
      (t, refl, ground arith, ground arith, ground arith, ground arith)
  note_written_lem n (err e, t) r h = cc

  append_entry_lem :
      (entry_id body : Bytes) (now : ℕ) (temporary : Bytes) (current : List Entry) (q r : DiskQueue)
      → Distinct q.files
      → listed is_uuid q.files ≡ current
      → InOrder current
      → Countable current
      → q.next_sequence < u64_mod
      → now / nanos_per_second < 10 ^ 12
      → is_uuid entry_id ≡ true
      → append_entry is_uuid os entry_id body now temporary current q ≡ (ok tt, r)
      → (listed is_uuid r.files
          ≡ survivors q.limits (length body) current
            ++ new_entry (sequence_for q current) now entry_id body ∷ [])
        × Distinct r.files
        × (r.next_sequence ≡ suc (sequence_for q current) % u64_mod)
        × (r.limits ≡ q.limits)
        × (r.sent ≡ q.sent)
  unfolding append_entry
  append_entry_lem entry_id body now temporary current q r d l o c hn ht hid h =
      let (_, s, first, rest) =
        resume-eq-ok
          (make_room is_uuid os (length body) current (length current) (total_bytes current) q) _
          h in
      let (l', d', u) = make_room-survivors is_uuid os (length body) current q s d l first in
      let sequence = sequence_for q current in
      let (t, w, ef, el, es, en) = note_written_lem sequence _ r rest in
      let (below, bound) = next_after-bounds current o c in
      let named = subst (All (NamedBy is_uuid)) l (listed-NamedBy is_uuid q.files) in
      let small : sequence < u64_mod = omega arith in
      let fresh =
        new_entry-IsNew is_uuid sequence now entry_id body small ht hid
          (survivors q.limits (length body) current)
          (All-survivors _ q.limits (length body) current named)
          (All-survivors _ q.limits (length body) current
            (All-raise (next_after current) sequence current (omega arith) below)) in
      let shows =
        write_atomically-ok is_uuid os _ _ body now (new_entry sequence now entry_id body) s t
          (parse_entry_name-temporary is_uuid temporary) d' (rw l' fresh) w in
      (
        ap (listed is_uuid) ef
            ∙ shows.entries
            ∙ ap (λ x. x ++ new_entry sequence now entry_id body ∷ []) l',
        subst Distinct (sym ef) shows.distinct,
        en,
        el ∙ shows.unmoved.limits ∙ u.limits,
        es ∙ shows.unmoved.sent ∙ u.sent,
      )

  -- A body over the byte limit is refused, and nothing is changed.
  pub enqueue_too_large :
      (entry_id body : Bytes) (now : ℕ) (temporary : Bytes) (q : DiskQueue)
      → q.limits.max_bytes < length body
      → enqueue is_uuid os entry_id body now temporary q ≡ (err too_large, q)
  unfolding enqueue
  enqueue_too_large entry_id body now temporary q h = ground arith

  pub enqueue-fits :
      (entry_id body : Bytes) (now : ℕ) (temporary : Bytes) (q r : DiskQueue)
      → enqueue is_uuid os entry_id body now temporary q ≡ (ok tt, r)
      → (length body ≤ q.limits.max_bytes)
        × (resume (entries is_uuid os q) (λ all.
              expire is_uuid os all now >>= append_entry is_uuid os entry_id body now temporary)
            ≡ (ok tt, r))
  unfolding enqueue
  enqueue-fits entry_id body now temporary q r h =
      elim (Bool-cases (ltb q.limits.max_bytes (length body))) [
        | inl big ↦ absurd (ground (arith, h))
        | inr small ↦ (ground arith, ground (arith, h))
      ]

  expired_then-Appended :
      (entry_id body : Bytes) (now : ℕ) (temporary : Bytes) (cs : List Entry) (q s t r : DiskQueue)
      → Distinct q.files
      → Countable (listed is_uuid q.files)
      → q.next_sequence < u64_mod
      → now / nanos_per_second < 10 ^ 12
      → is_uuid entry_id ≡ true
      → s.files ≡ q.files
      → Unmoved q s
      → expire is_uuid os (listed is_uuid s.files) now s ≡ (ok cs, t)
      → append_entry is_uuid os entry_id body now temporary cs t ≡ (ok tt, r)
      → Appended entry_id body now q r
  unfolding enqueued
  expired_then-Appended entry_id body now temporary cs q s t r d c hn ht hid ef eu second third =
      let before : listed is_uuid s.files ≡ listed is_uuid q.files = ap (listed is_uuid) ef in
      let (ec, lt, dt, ut) = expire-unexpired is_uuid os now cs s t (rw ef d) second in
      let current = unexpired q.limits now (listed is_uuid q.files) in
      let now_current : cs ≡ current =
        ec
        ∙ ap (λ l. unexpired l now (listed is_uuid s.files)) eu.limits
        ∙ ap (unexpired q.limits now) before in
      let still : listed is_uuid t.files ≡ current = lt ∙ sym ec ∙ now_current in
      let next : t.next_sequence ≡ q.next_sequence = ut.next_sequence ∙ eu.next_sequence in
      let limits : t.limits ≡ q.limits = ut.limits ∙ eu.limits in
      let appended =
        append_entry_lem entry_id body now temporary current t r dt still
          (filter-listed-InOrder is_uuid _ q.files) (All-filter _ _ (listed is_uuid q.files) c)
          (rw next hn) ht hid
          (subst (λ es. append_entry is_uuid os entry_id body now temporary es t ≡ (ok tt, r))
            now_current third) in
      (
        cc (appended.0, limits, next),
        appended.1,
        appended.2 ∙ ap (λ n. suc (max n (next_after current)) % u64_mod) next,
        appended.3 ∙ limits,
        appended.4 ∙ ut.sent ∙ eu.sent,
      )

  -- If `enqueue` succeeds, the directory lists exactly the entries that are neither too old nor
  -- dropped for space, in their order, and then the new entry with its whole body's size; no two
  -- files have the same name, the next sequence is the one after the new entry's, no limit changed
  -- and nothing was delivered. It is assumed that no two files had the same name, that the clock
  -- is before the year 33658, that the new ID is a UUID, and that no sequence has reached the last
  -- 64-bit number.
  pub enqueue_refines :
      (entry_id body : Bytes) (now : ℕ) (temporary : Bytes) (q r : DiskQueue)
      → Distinct q.files
      → Countable (listed is_uuid q.files)
      → q.next_sequence < u64_mod
      → now / nanos_per_second < 10 ^ 12
      → is_uuid entry_id ≡ true
      → enqueue is_uuid os entry_id body now temporary q ≡ (ok tt, r)
      → Appended entry_id body now q r
  enqueue_refines entry_id body now temporary q r d c hn ht hid h =
      let (all, s, first, rest) =
        resume-eq-ok (entries is_uuid os q) _ (enqueue-fits entry_id body now temporary q r h).1 in
      let (ea, ef, eu) = entries_lem q s all first in
      let (cs, t, second, third) = resume-eq-ok (expire is_uuid os all now s) _ rest in
      expired_then-Appended entry_id body now temporary cs q s t r d c hn ht hid ef eu
        (subst (λ es. expire is_uuid os es now s ≡ (ok cs, t)) (ea ∙ ap (listed is_uuid) (sym ef))
          second)
        third

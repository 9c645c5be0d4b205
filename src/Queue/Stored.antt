-- ===== src/Queue/Stored.antt =====
-- The body that `enqueue` of agent/src/queue.rs leaves in the directory.
use renga.Prelude.{
  ℕ, ◌≡◌, refl, sym, ap, ◌∙◌, max, Bool, some, List, [], ◌∷◌, ◌++◌, length, arith, subst, ok,
  resume-eq-ok, find, all,
}
use renga.Bytes.{Bytes, bytes_eq}
use renga.Bytes.Equality.{bytes_eq_refl}
use renga.Queue.Name.{temporary_prefix, entry_name}
use renga.Queue.Entry.{Entry, File, listed, total_bytes}
use renga.Queue.Disk.{Answer, DiskQueue, without}
use renga.Queue.Listing.{Distinct}
use renga.Queue.Operations.{entries, expire, make_room, enqueue, next_after, append_entry, file_at}
use renga.Queue.Dropping.{unexpired}
use renga.Queue.Expiry.{expire-unexpired}
use renga.Queue.Sequence.{sequence_for}
use renga.Queue.Enqueue.{entries_lem, enqueue-fits, note_written_lem}
use renga.Queue.Writing.{write_atomically_steps}

find-snoc :
    (f : File) (fs : List File)
    → find (λ g. bytes_eq g.name f.name) (without f.name fs ++ f ∷ []) ≡ some f
unfolding without
find-snoc f [] = rw (bytes_eq_refl f.name) refl
find-snoc f (g ∷ fs) = ground (arith, find-snoc f fs)

-- The file of this path has exactly this body.
abbrev pub Holds : Bytes → Bytes → List File → Type 0
Holds path body fs = (f : File) × (find (λ g. bytes_eq g.name path) fs ≡ some f) × (f.body ≡ body)

module _ (is_uuid : Bytes → Bool) (os : ℕ → Answer) where
  append_entry-Holds :
      (entry_id body : Bytes) (now : ℕ) (temporary : Bytes) (current : List Entry) (q r : DiskQueue)
      → append_entry is_uuid os entry_id body now temporary current q ≡ (ok tt, r)
      → Holds (entry_name (sequence_for q current) now entry_id) body r.files
  unfolding append_entry
  append_entry-Holds entry_id body now temporary current q r h =
      let (_, s, first, rest) =
        resume-eq-ok
          (make_room is_uuid os (length body) current (length current) (total_bytes current) q) _
          h in
      let sequence = sequence_for q current in
      let path = entry_name sequence now entry_id in
      let tmp = temporary_prefix ++ temporary in
      let (t, w, ef, _, _, _) = note_written_lem is_uuid os sequence _ r rest in
      let (_, same) = write_atomically_steps is_uuid os tmp path body now s t w in
      (
        file_at path now body,
        ap (λ fs. find (λ g. bytes_eq g.name path) fs) (ef ∙ ap (λ x. x.files) same)
            ∙ find-snoc (file_at path now body) _,
        refl,
      )

  -- After an `enqueue` that succeeds the file of the new entry has the body.
  pub enqueue-Holds :
      (entry_id body : Bytes) (now : ℕ) (temporary : Bytes) (q r : DiskQueue)
      → Distinct q.files
      → enqueue is_uuid os entry_id body now temporary q ≡ (ok tt, r)
      → Holds
          (entry_name
            (sequence_for q (unexpired q.limits now (listed is_uuid q.files)))
            now
            entry_id)
          body
          r.files
  enqueue-Holds entry_id body now temporary q r d h =
      let (all, s, first, rest) =
        resume-eq-ok (entries is_uuid os q) _
          (enqueue-fits is_uuid os entry_id body now temporary q r h).1 in
      let (ea, ef, eu) = entries_lem is_uuid os q s all first in
      let (cs, t, second, third) = resume-eq-ok (expire is_uuid os all now s) _ rest in
      let second' : expire is_uuid os (listed is_uuid s.files) now s ≡ (ok cs, t) =
        subst (λ es. expire is_uuid os es now s ≡ (ok cs, t)) (ea ∙ ap (listed is_uuid) (sym ef))
          second in
      let (ec, _, _, ut) = expire-unexpired is_uuid os now cs s t (rw ef d) second' in
      let current = unexpired q.limits now (listed is_uuid q.files) in
      let now_current : cs ≡ current =
        ec
        ∙ ap (λ l. unexpired l now (listed is_uuid s.files)) eu.limits
        ∙ ap (λ fs. unexpired q.limits now (listed is_uuid fs)) ef in
      let next : t.next_sequence ≡ q.next_sequence = ut.next_sequence ∙ eu.next_sequence in
      let sequence : sequence_for t cs ≡ sequence_for q current =
        ap (λ n. max n (next_after cs)) next ∙ ap (sequence_for q) now_current in
      subst (λ n. Holds (entry_name n now entry_id) body r.files) sequence
        (append_entry-Holds entry_id body now temporary cs t r third)

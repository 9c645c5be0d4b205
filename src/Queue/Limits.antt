-- ===== src/Queue/Limits.antt =====
-- The limits of the queue of agent/src/queue.rs around `enqueue`, and that it queues what is within
-- them.
use renga.Prelude.{
  ℕ, ◌+◌, ◌/◌, ◌^◌, ◌≤◌, ◌<◌, ◌≡◌, max, Bool, true, false, List, [], ◌∷◌, ◌++◌, length,
  length-append, total-append, arith, ok,
}
use renga.Bytes.{Bytes, u64_mod}
use renga.Queue.Name.{nanos_per_second, temporary_prefix, entry_name}
use renga.Queue.Entry.{QueueLimits, Entry, listed, total_bytes}
use renga.Queue.Disk.{Answer, DiskQueue, present}
use renga.Queue.Listing.{Distinct}
use renga.Queue.Operations.{enqueue, next_after}
use renga.Queue.Dropping.{survivors, unexpired}
use renga.Queue.Sequence.{new_entry, Countable}
use renga.Queue.Enqueue.{enqueued, enqueue-fits, enqueue_refines, Appended}
use renga.Queue.Calm.{Calm, enqueue_answers}
use renga.Queue.Stored.{Holds, enqueue-Holds}
use renga.Queue.Sequence.{sequence_for}

survivors_fit :
    (l : QueueLimits) (size : ℕ) (es : List Entry)
    → 0 < l.max_entries
    → size ≤ l.max_bytes
    → (length (survivors l size es) < l.max_entries)
      × (total_bytes (survivors l size es) + size ≤ l.max_bytes)
unfolding survivors
survivors_fit l size [] h k = (h, omega arith)
survivors_fit l size (e ∷ es) h k = ground (arith, survivors_fit l size es h k)

module _ (is_uuid : Bytes → Bool) (os : ℕ → Answer) where
  -- After an `enqueue` that succeeds the queue is within both of its limits, whatever it held
  -- before, if its entry limit is not zero. The assumptions are those of `enqueue_refines`.
  pub enqueue_bounded :
      (entry_id body : Bytes) (now : ℕ) (temporary : Bytes) (q r : DiskQueue)
      → Distinct q.files
      → Countable (listed is_uuid q.files)
      → q.next_sequence < u64_mod
      → now / nanos_per_second < 10 ^ 12
      → is_uuid entry_id ≡ true
      → 0 < q.limits.max_entries
      → enqueue is_uuid os entry_id body now temporary q ≡ (ok tt, r)
      → (length (listed is_uuid r.files) ≤ q.limits.max_entries)
        × (total_bytes (listed is_uuid r.files) ≤ q.limits.max_bytes)
  unfolding enqueued
  enqueue_bounded entry_id body now temporary q r d c hn ht hid hm h =
      let a = enqueue_refines is_uuid os entry_id body now temporary q r d c hn ht hid h in
      let (small, _) = enqueue-fits is_uuid os entry_id body now temporary q r h in
      let current = unexpired q.limits now (listed is_uuid q.files) in
      let kept = survivors q.limits (length body) current in
      let added = new_entry (max q.next_sequence (next_after current)) now entry_id body ∷ [] in
      let (few, light) = survivors_fit q.limits (length body) current hm small in
      rw (a.0, length-append kept added, total-append (λ e. e.bytes) kept added)
        (omega (arith, few), omega (arith, light))

  -- Where the file system answers every call, a body within the byte limit is queued: `enqueue` ends
  -- without an error, the directory lists what `enqueue_refines` says, the new entry included, and
  -- the file of the new entry holds exactly the body. It is assumed that no file has the temporary
  -- file's name and that no two files have the same name, that the clock is before the year 33658,
  -- that the new ID is a UUID, and that no sequence has reached the last 64-bit number.
  pub enqueue_succeeds :
      Calm os
      → (entry_id body : Bytes) (now : ℕ) (temporary : Bytes) (q : DiskQueue) → Distinct q.files
      → Countable (listed is_uuid q.files)
      → q.next_sequence < u64_mod
      → now / nanos_per_second < 10 ^ 12
      → is_uuid entry_id ≡ true
      → length body ≤ q.limits.max_bytes
      → present (temporary_prefix ++ temporary) q.files ≡ false
      → let sequence = sequence_for q (unexpired q.limits now (listed is_uuid q.files)) in
        (r : DiskQueue) × (enqueue is_uuid os entry_id body now temporary q ≡ (ok tt, r))
        × Appended is_uuid os entry_id body now q r
        × Holds (entry_name sequence now entry_id) body r.files
  enqueue_succeeds calm entry_id body now temporary q d c hn ht hid h k =
      let (r, e) = enqueue_answers is_uuid os calm entry_id body now temporary q h k in
      (
        r,
        e,
        enqueue_refines is_uuid os entry_id body now temporary q r d c hn ht hid e,
        enqueue-Holds is_uuid os entry_id body now temporary q r d e,
      )

-- ===== src/Queue/Examples.antt =====
-- A queue with one entry and room for two, and what the theorems say of it.
use renga.Queue.Opening.{open_queue_lem}
use renga.Queue.Writing.{write_atomically-err}
use renga.Queue.Dropping.{unexpired}
use renga.Queue.Drain.{first_read, drain_oldest_first}
use renga.Queue.Passes.{Passed}
use renga.Queue.Delivery.{
  Delivery, accepted, nothing_drained, drain_at_most, deliver_each, offer, settle, open_queue,
  remove_abandoned_temporaries, remove_each,
}
use renga.Prelude.{
  ℕ, Bool, true, [], ◌∷◌, ◌≡◌, refl, none, ok, arith, length, ◌*◌, ◌/◌, ◌^◌, ◌+◌, ◌≤◌, ◌<◌, some,
  false, err, if◌then◌else◌, ◌==◌, ◌⊎◌, ◌++◌,
}
use renga.Bytes.{
  Bytes, padded, fixed, count_digits, split_once, strip_suffix, parse_u64, parse_digits, bytes_eq,
}
use renga.Queue.Name.{
  nanos_per_second, entry_name, parse_entry_name, temporary_prefix, parse_fields, parse_stem,
}
use renga.Queue.Name.RoundTrip.{parse_entry_name-entry_name, parse_entry_name-temporary}
use renga.Queue.Entry.{observations, no_counts, listed, sort, insert, entry_of, age, total_bytes}
use renga.Queue.Disk.{
  Answer, done, DiskQueue, read_directory, remove, attempt, without, contents, present, read_file,
  failed, cannot_persist, cannot_sync,
}
use renga.Queue.Operations.{
  enqueue, file_at, append_entry, make_room, expire, drop_for_space, drop_for_age, entries,
  write_atomically, health, publish, publish_health, next_after, note_written, write_file,
  drop_expired, clean_up,
}
use renga.Queue.Enqueue.{enqueue_refines, Appended}
use renga.Queue.Stored.{Holds}
use renga.Queue.Sequence.{sequence_for}
use renga.Queue.Limits.{enqueue_bounded, enqueue_succeeds}

abbrev any_uuid : Bytes → Bool
any_uuid _ = true

abbrev calm : ℕ → Answer
calm _ = done

abbrev one_entry : DiskQueue
one_entry = record {
  kind = observations;
  limits = record { max_entries = 2; max_bytes = 10; max_age = 100 * nanos_per_second };
  next_sequence = 1;
  counters = no_counts;
  monitor = none;
  files =
      file_at (entry_name 0 nanos_per_second (b'a' ∷ [])) nanos_per_second (1 ∷ 2 ∷ 3 ∷ []) ∷ [];
  calls = 0;
  sent = [];
}

abbrev body : Bytes
body = 1 ∷ 2 ∷ 3 ∷ 4 ∷ 5 ∷ 6 ∷ 7 ∷ 8 ∷ []

abbrev grown : DiskQueue
grown = (enqueue any_uuid calm (b'b' ∷ []) body (2 * nanos_per_second) [] one_entry).1

listed-one_entry :
    listed any_uuid one_entry.files
    ≡ record {
      path = entry_name 0 nanos_per_second (b'a' ∷ []);
      sequence = 0;
      queued_at = nanos_per_second;
      bytes = 3;
    }
      ∷ []
unfolding listed sort insert entry_of parse_entry_name parse_fields parse_stem entry_name padded
    fixed count_digits split_once strip_suffix parse_u64 parse_digits bytes_eq
listed-one_entry = refl

enqueue-one_entry :
    enqueue any_uuid calm (b'b' ∷ []) body (2 * nanos_per_second) [] one_entry ≡ (ok tt, grown)
unfolding enqueue listed sort insert entry_of parse_entry_name parse_fields parse_stem entry_name
    padded fixed count_digits split_once strip_suffix parse_u64 parse_digits bytes_eq append_entry
    make_room expire drop_for_space drop_for_age entries write_atomically health publish
    publish_health next_after note_written read_directory remove attempt write_file drop_expired
    clean_up without age
enqueue-one_entry = refl

no_temporary : present temporary_prefix one_entry.files ≡ false
unfolding entry_name padded fixed count_digits bytes_eq
no_temporary = refl

abbrev accept : ℕ → Bytes → Delivery
accept _ _ = accepted

abbrev never : ℕ → Bool
never _ = false

abbrev drained : DiskQueue
drained = (drain_at_most any_uuid calm accept never 3 (2 * nanos_per_second) one_entry).1

drain-one_entry :
    drain_at_most any_uuid calm accept never 3 (2 * nanos_per_second) one_entry
    ≡ (ok (record { delivered = 1; rejected = 0; blocked = false }), drained)
unfolding drain_at_most deliver_each offer settle read_file listed sort insert entry_of
    parse_entry_name parse_fields parse_stem entry_name padded fixed count_digits split_once
    strip_suffix parse_u64 parse_digits bytes_eq expire drop_for_age entries health publish
    publish_health read_directory remove drop_expired without contents age
drain-one_entry = refl

below-12 : (2 * nanos_per_second) / nanos_per_second < 10 ^ 12
below-12 = omega arith

enqueue_refines_example :
    Appended any_uuid calm (b'b' ∷ []) body (2 * nanos_per_second) one_entry grown
enqueue_refines_example =
    enqueue_refines any_uuid calm (b'b' ∷ []) body (2 * nanos_per_second) [] one_entry grown
      (tt, tt) (rw listed-one_entry (omega arith, tt)) (omega arith) below-12 refl enqueue-one_entry

enqueue_bounded_example :
    (length (listed any_uuid grown.files) ≤ 2) × (total_bytes (listed any_uuid grown.files) ≤ 10)
enqueue_bounded_example =
    enqueue_bounded any_uuid calm (b'b' ∷ []) body (2 * nanos_per_second) [] one_entry grown
      (tt, tt) (rw listed-one_entry (omega arith, tt)) (omega arith) below-12 refl (omega arith)
      enqueue-one_entry

enqueue_succeeds_example :
    let now = 2 * nanos_per_second in
    let sequence =
      sequence_for one_entry (unexpired one_entry.limits now (listed any_uuid one_entry.files)) in
    (r : DiskQueue) × (enqueue any_uuid calm (b'b' ∷ []) body now [] one_entry ≡ (ok tt, r))
    × Appended any_uuid calm (b'b' ∷ []) body now one_entry r
    × Holds (entry_name sequence now (b'b' ∷ [])) body r.files
enqueue_succeeds_example =
    enqueue_succeeds any_uuid calm (λ _. refl) (b'b' ∷ []) body (2 * nanos_per_second) [] one_entry
      (tt, tt) (rw listed-one_entry (omega arith, tt)) (omega arith) below-12 refl (omega arith)
      no_temporary

parse_entry_name-entry_name_example :
    parse_entry_name any_uuid (entry_name 7 (2 * nanos_per_second + 5) (b'a' ∷ []))
    ≡ some (7, (2 * nanos_per_second + 5) / nanos_per_second * nanos_per_second)
parse_entry_name-entry_name_example =
    parse_entry_name-entry_name any_uuid 7 (2 * nanos_per_second + 5) (b'a' ∷ []) (omega arith)
      (omega arith) refl

drain_oldest_first_example :
    Passed any_uuid calm accept never 3
      (unexpired one_entry.limits (2 * nanos_per_second) (listed any_uuid one_entry.files))
      0
      0
      (first_read any_uuid calm (2 * nanos_per_second) one_entry)
      nothing_drained
      (record { delivered = 1; rejected = 0; blocked = false })
      one_entry
      drained
drain_oldest_first_example =
    drain_oldest_first any_uuid calm accept never 3 (2 * nanos_per_second)
      (record { delivered = 1; rejected = 0; blocked = false }) one_entry drained (tt, tt)
      drain-one_entry

-- The rename fails.
abbrev no_rename : ℕ → Answer
no_rename n = if n == 2 then failed else done

abbrev failing_write : DiskQueue
failing_write =
    (write_atomically any_uuid no_rename temporary_prefix (entry_name 1 0 (b'b' ∷ [])) body 0
      one_entry).1

write-failing :
    write_atomically any_uuid no_rename temporary_prefix
      (entry_name 1 0 (b'b' ∷ []))
      body
      0
      one_entry
    ≡ (err cannot_persist, failing_write)
unfolding write_atomically write_file clean_up attempt remove entry_name padded fixed count_digits
    bytes_eq without
write-failing = refl

write_atomically-err_example :
    (listed any_uuid failing_write.files ≡ listed any_uuid one_entry.files)
    ⊎ (cannot_persist ≡ cannot_sync)
write_atomically-err_example =
    write_atomically-err any_uuid no_rename temporary_prefix (entry_name 1 0 (b'b' ∷ [])) body 0
      cannot_persist one_entry failing_write (parse_entry_name-temporary any_uuid []) write-failing

-- With a temporary file that was left twenty minutes ago.
abbrev littered : DiskQueue
littered = record one_entry {
  files = file_at (temporary_prefix ++ b'x' ∷ []) nanos_per_second (1 ∷ []) ∷ one_entry.files;
}

abbrev opened : DiskQueue
opened = (open_queue any_uuid calm true (1201 * nanos_per_second) littered).1

open-littered : open_queue any_uuid calm true (1201 * nanos_per_second) littered ≡ (ok tt, opened)
unfolding open_queue remove_abandoned_temporaries remove_each read_directory remove entries
    publish_health publish health listed sort insert entry_of parse_entry_name parse_fields
    parse_stem entry_name padded fixed count_digits split_once strip_suffix parse_u64 parse_digits
    bytes_eq without next_after
open-littered = refl

open_queue_lem_example :
    (listed any_uuid opened.files ≡ listed any_uuid littered.files)
    × (opened.next_sequence ≡ next_after (listed any_uuid littered.files))
    × (opened.sent ≡ [])
open_queue_lem_example =
    open_queue_lem any_uuid calm true (1201 * nanos_per_second) littered opened open-littered

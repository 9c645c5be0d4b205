-- ===== src/Queue/Operations.antt =====
-- The operations of `DiskQueue` in agent/src/queue.rs.
use renga.Prelude.{
  ℕ, suc, ◌+◌, ◌-◌, ◌%◌, max, Bool, true, false, ◌&&◌, not, Option, none, some, List, [], ◌∷◌, ◌++◌,
  ltb, leb, if◌then◌else◌, length, filter, Result, ok, err, pure, raise, gets, ◌>>=◌, ◌>>◌, modify,
}
use renga.Bytes.{Bytes, u64_mod}
use renga.Queue.Name.{entry_name, temporary_prefix}
use renga.Queue.Entry.{
  QueueLimits, QueueCounters, QueueHealth, Entry, File, listed, total_bytes, age, note_dropped,
}
use renga.Queue.Disk.{
  Answer, DiskQueue, Action, QueueError, too_large, cannot_create, cannot_write, cannot_persist,
  cannot_sync, without, present, read_directory, remove, attempt,
}

abbrev pub file_at : Bytes → ℕ → Bytes → File
file_at name now body = record { name = name; regular = true; modified = now; body = body }

abbrev oldest_time : List Entry → Option ℕ
oldest_time [] = none
oldest_time (e ∷ _) = some e.queued_at

abbrev pub health_of : List Entry → QueueCounters → QueueHealth
health_of es counters = record {
  entries = length es;
  bytes = total_bytes es;
  oldest_queued_at = oldest_time es;
  counters = counters;
}

-- The sequence after the last entry's, in 64-bit arithmetic; 0 for an empty queue.
unfoldable pub next_after : List Entry → ℕ
next_after [] = 0
next_after (e ∷ []) = suc e.sequence % u64_mod
next_after (_ ∷ e ∷ es) = next_after (e ∷ es)

abbrev pub count_dropped : Bool → ℕ → DiskQueue → DiskQueue
count_dropped false queued_at q = q
count_dropped true queued_at q = record q {
  counters =
      note_dropped (record q.counters { dropped_for_space = suc q.counters.dropped_for_space })
        queued_at;
}

abbrev pub count_expired : Bool → ℕ → DiskQueue → DiskQueue
count_expired false queued_at q = q
count_expired true queued_at q = record q {
  counters = note_dropped (record q.counters { expired = suc q.counters.expired }) queued_at;
}

abbrev pub count_unreadable : Bool → DiskQueue → DiskQueue
count_unreadable false q = q
count_unreadable true q = record q {
  counters = record q.counters { unreadable = suc q.counters.unreadable };
}

abbrev pub count_rejected : Bool → DiskQueue → DiskQueue
count_rejected false q = q
count_rejected true q = record q {
  counters = record q.counters { rejected = suc q.counters.rejected };
}

-- A new entry fits once the entries left leave room for one more and for its bytes.
abbrev pub fits : QueueLimits → ℕ → ℕ → ℕ → Bool
fits l size remaining bytes = ltb remaining l.max_entries && leb (bytes + size) l.max_bytes

-- The directory after the steps of a write: the temporary file is made, filled, and renamed, which
-- replaces a file of the same name.
abbrev pub created : Bytes → ℕ → DiskQueue → DiskQueue
created temporary now q = record q { files = q.files ++ file_at temporary now [] ∷ [] }

abbrev pub filled : Bytes → Bytes → ℕ → DiskQueue → DiskQueue
filled temporary body now q = record q {
  files = without temporary q.files ++ file_at temporary now body ∷ [];
}

abbrev pub renamed : Bytes → Bytes → Bytes → ℕ → DiskQueue → DiskQueue
renamed temporary path body now q = record q {
  files = without path (without temporary q.files) ++ file_at path now body ∷ [];
}

-- Strictly older than the age limit.
abbrev pub is_expired : QueueLimits → ℕ → Entry → Bool
is_expired l now e = ltb l.max_age (age e now)

module _ (is_uuid : Bytes → Bool) (os : ℕ → Answer) where
  unfoldable pub entries : Action (List Entry)
  entries = do files ← read_directory os; pure (listed is_uuid files)

  unfoldable pub health : Action QueueHealth
  unfolding entries
  health = do es ← entries; counters ← gets (λ q. q.counters); pure (health_of es counters)

  -- A failed read leaves the previous snapshot in place.
  unfoldable pub publish :
      Result QueueHealth QueueError × DiskQueue → Result (Unit {0}) QueueError × DiskQueue
  publish (ok h, q) = (ok tt, record q { monitor = some h })
  publish (err e, q) = (ok tt, q)

  unfoldable pub publish_health : Action Unit
  unfolding health publish
  publish_health q = publish (health q)

  -- One round of the loop of `expire`.
  unfoldable pub drop_for_age : Entry → Action Unit
  drop_for_age e = do
    removed ← remove os e.path
    modify (count_expired removed e.queued_at)
    publish_health

  -- One round of the loop of `enqueue`.
  unfoldable pub drop_for_space : Entry → Action Unit
  drop_for_space oldest = do
    removed ← remove os oldest.path
    modify (count_dropped removed oldest.queued_at)
    publish_health

  unfoldable pub drop_expired : List Entry → Action Unit
  drop_expired [] = pure tt
  drop_expired (e ∷ es) = do drop_for_age e; drop_expired es

  unfoldable pub expire : List Entry → ℕ → Action (List Entry)
  unfolding drop_expired
  expire es now = do
    limits ← gets (λ q. q.limits)
    drop_expired (filter (is_expired limits now) es)
    pure (filter (λ e. not (is_expired limits now e)) es)

  -- The loop of `enqueue` that drops the oldest entries until the new one fits.
  unfoldable pub make_room : ℕ → List Entry → ℕ → ℕ → Action Unit
  make_room size [] remaining bytes = pure tt
  make_room size (oldest ∷ rest) remaining bytes = do
    limits ← gets (λ q. q.limits)
    if fits limits size remaining bytes
        then pure tt
        else do drop_for_space oldest; make_room size rest (remaining - 1) (bytes - oldest.bytes)

  -- The temporary file is removed whatever that removal answers.
  unfoldable pub clean_up :
      Bytes → Result (Unit {0}) QueueError × DiskQueue → Result (Unit {0}) QueueError × DiskQueue
  clean_up temporary (ok _, q) = (ok tt, q)
  clean_up temporary (err e, q) = (err e, (remove os temporary q).1)

  unfoldable pub write_file : Bytes → Bytes → Bytes → ℕ → Action Unit
  write_file temporary path body now = do
    files ← gets (λ q. q.files)
    if present temporary files then raise cannot_create else do
      attempt os cannot_create (created temporary now)
      attempt os cannot_write (filled temporary body now)
      attempt os cannot_persist (renamed temporary path body now)
      attempt os cannot_sync (λ q. q)

  unfoldable pub write_atomically : Bytes → Bytes → Bytes → ℕ → Action Unit
  unfolding clean_up write_file
  write_atomically temporary path body now q =
      clean_up temporary (write_file temporary path body now q)

  -- A written entry moves `next_sequence` on; the health is published either way.
  unfoldable pub note_written :
      ℕ → Result (Unit {0}) QueueError × DiskQueue → Result (Unit {0}) QueueError × DiskQueue
  note_written sequence (ok _, q) =
      (ok tt, (publish_health (record q { next_sequence = suc sequence % u64_mod })).1)
  note_written sequence (err e, q) = (err e, (publish_health q).1)

  -- The last part of `enqueue`, from the choice of the sequence on.
  unfoldable pub append_entry : Bytes → Bytes → ℕ → Bytes → List Entry → Action Unit
  unfolding note_written
  append_entry entry_id body now temporary current = do
    next ← gets (λ q. q.next_sequence)
    let sequence = max next (next_after current)
    make_room (length body) current (length current) (total_bytes current)
    (λ q. note_written sequence (
        write_atomically (temporary_prefix ++ temporary) (entry_name sequence now entry_id) body now
          q))

  -- `temporary` is the random part of the temporary file's name.
  unfoldable pub enqueue : Bytes → Bytes → ℕ → Bytes → Action Unit
  enqueue entry_id body now temporary = do
    limits ← gets (λ q. q.limits)
    if ltb limits.max_bytes (length body) then raise too_large else do
      all ← entries
      current ← expire all now
      append_entry entry_id body now temporary current

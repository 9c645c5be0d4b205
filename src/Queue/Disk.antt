-- ===== src/Queue/Disk.antt =====
-- The queue of agent/src/queue.rs as a state, and its calls of the file system.
--
-- `files` is the directory, `calls` counts the system calls made, and `sent` holds the bodies
-- handed to `deliver`. The answer to each call is the parameter `os`: another process that shares
-- the directory may have removed the file that the call addresses just before, and no other, and any
-- call may fail.
use renga.Prelude.{
  ℕ, suc, Bool, false, not, Option, none, some, List, filter, find, any, ok, err, Stateful,
}
use renga.Bytes.{Bytes, bytes_eq}
use renga.Queue.Entry.{QueueKind, QueueLimits, QueueCounters, QueueHealth, File}

pub data QueueError : Type 0 where
  too_large cannot_list cannot_remove cannot_create cannot_write cannot_persist cannot_sync :
      QueueError

pub data Answer : Type 0 where
  done vanished failed : Answer

pub record DiskQueue : Type 0 where
  pub kind : QueueKind
  pub limits : QueueLimits
  pub next_sequence : ℕ
  pub counters : QueueCounters
  pub monitor : Option QueueHealth
  pub files : List File
  pub calls : ℕ
  pub sent : List Bytes

abbrev pub Action : Type 0 → Type 0
Action = Stateful DiskQueue QueueError

unfoldable pub without : Bytes → List File → List File
without path = filter (λ f. not (bytes_eq f.name path))

abbrev pub present : Bytes → List File → Bool
present path = any (λ f. bytes_eq f.name path)

abbrev pub counted : DiskQueue → DiskQueue
counted q = record q { calls = suc q.calls }

abbrev pub unlinked : Bytes → DiskQueue → DiskQueue
unlinked path q = record q { files = without path q.files; calls = suc q.calls }

pub data Contents : Type 0 where
  found : Bytes → Contents
  missing unreadable : Contents

module _ (os : ℕ → Answer) where
  unfoldable pub read_directory : Action (List File)
  read_directory q = elim (os q.calls) [
    | failed ↦ (err cannot_list, counted q)
    | _ ↦ (ok q.files, counted q)
  ]

  -- `remove`: whether this process unlinked the file.
  unfoldable pub remove : Bytes → Action Bool
  remove path q = elim (os q.calls) [
    | done ↦ (ok (present path q.files), unlinked path q)
    | vanished ↦ (ok false, unlinked path q)
    | failed ↦ (err cannot_remove, counted q)
  ]

  unfoldable pub contents : Option File → Contents
  contents none = missing
  contents (some f) = found f.body

  -- `fs::read`, with the three answers that `drain_at_most` tells apart.
  unfoldable pub read_file : Bytes → Action Contents
  unfolding contents
  read_file path q = elim (os q.calls) [
    | done ↦ (ok (contents (find (λ f. bytes_eq f.name path) q.files)), counted q)
    | vanished ↦ (ok missing, unlinked path q)
    | failed ↦ (ok unreadable, counted q)
  ]

  -- One call that either does its work or reports `e` and changes nothing.
  unfoldable pub attempt : QueueError → (DiskQueue → DiskQueue) → Action Unit
  attempt e work q = elim (os q.calls) [
    | failed ↦ (err e, counted q)
    | _ ↦ (ok tt, counted (work q))
  ]

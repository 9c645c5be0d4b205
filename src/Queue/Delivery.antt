-- ===== src/Queue/Delivery.antt =====
-- Delivery passes and start-up of agent/src/queue.rs: `drain_at_most`, `drain`, `open` and
-- `remove_abandoned_temporaries`.
--
-- The pass's environment is given by functions: `deliver n body` is the answer to the n-th offer,
-- and `cancelled n` what the cancellation says when n entries of the pass have been looked at.
use renga.Prelude.{
  ℕ, suc, ◌-◌, ◌*◌, Bool, true, false, ◌&&◌, ◌||◌, List, [], ◌∷◌, ◌++◌, ltb, leb, if◌then◌else◌,
  pure, raise, ◌>>=◌, ◌>>◌, modify, take,
}
use renga.Bytes.{Bytes, u64_mod, bytes_eq}
use renga.Queue.Name.{temporary_prefix, nanos_per_second}
use renga.Queue.Entry.{no_counts, Entry, File}
use renga.Queue.Disk.{
  Answer, DiskQueue, Action, cannot_create, Contents, found, missing, unreadable, read_directory,
  remove, read_file,
}
use renga.Queue.Operations.{
  next_after, count_unreadable, count_rejected, entries, publish_health, expire,
}

-- What `deliver` answered: `FailureKind::PayloadRejected` against any other failure.
pub data Delivery : Type 0 where
  accepted payload_rejected refused : Delivery

pub record Drained : Type 0 where
  pub delivered : ℕ
  pub rejected : ℕ
  pub blocked : Bool

abbrev pub nothing_drained : Drained
nothing_drained = record { delivered = 0; rejected = 0; blocked = false }

abbrev pub noting_rejected : Bool → Drained → Drained
noting_rejected true d = record d { rejected = suc d.rejected }
noting_rejected false d = d

-- `deliver` is called with the body, which the environment then has.
abbrev pub offered_body : Bytes → DiskQueue → DiskQueue
offered_body body q = record q { sent = q.sent ++ body ∷ [] }

-- 600 seconds.
abbrev pub abandoned_temporary_age : ℕ
abandoned_temporary_age = 600 * nanos_per_second

module _ (is_uuid : Bytes → Bool) (os : ℕ → Answer) (deliver : ℕ → Bytes → Delivery)
    (cancelled : ℕ → Bool) (limit : ℕ) where
  -- The rest of the pass after an offer is a continuation, so that each case of the source's
  -- `match` is one clause.
  unfoldable pub settle : Delivery → Bytes → Drained → (Drained → Action Drained) → Action Drained
  settle accepted path d continue = do
    remove os path
    publish_health is_uuid os
    continue (record d { delivered = suc d.delivered })
  settle payload_rejected path d continue = do
    removed ← remove os path
    modify (count_rejected removed)
    publish_health is_uuid os
    continue (noting_rejected removed d)
  settle refused path d continue = pure (record d { blocked = true })

  unfoldable pub offer :
      Contents → Bytes → ℕ → Drained → (ℕ → Drained → Action Drained) → Action Drained
  unfolding settle
  offer (found body) path offered d continue = do
    modify (offered_body body)
    settle (deliver offered body) path d (continue (suc offered))
  offer missing path offered d continue = do publish_health is_uuid os; continue offered d
  offer unreadable path offered d continue = do
    removed ← remove os path
    modify (count_unreadable removed)
    publish_health is_uuid os
    continue offered d

  -- The loop of `drain_at_most`; `seen` counts the entries looked at.
  unfoldable pub deliver_each : List Entry → ℕ → ℕ → Drained → Action Drained
  unfolding offer
  deliver_each [] seen offered d = pure d
  deliver_each (e ∷ es) seen offered d =
      if cancelled seen || leb limit offered
      then pure d
      else do c ← read_file os e.path; offer c e.path offered d (deliver_each es (suc seen))

  unfoldable pub drain_at_most : ℕ → Action Drained
  unfolding deliver_each
  drain_at_most now = do
    all ← entries is_uuid os
    current ← expire is_uuid os all now
    drained ← deliver_each current 0 0 nothing_drained
    publish_health is_uuid os
    pure drained

module _ (is_uuid : Bytes → Bool) (os : ℕ → Answer) where
  -- The limit is the largest `usize`.
  unfoldable pub drain : (ℕ → Bytes → Delivery) → (ℕ → Bool) → ℕ → Action Drained
  unfolding drain_at_most
  drain deliver cancelled now = drain_at_most is_uuid os deliver cancelled (u64_mod - 1) now

  abbrev pub starts_temporary : File → Bool
  starts_temporary f = bytes_eq (take 5 f.name) temporary_prefix

  unfoldable pub remove_each : ℕ → List File → Action Unit
  remove_each now [] = pure tt
  remove_each now (f ∷ fs) =
      if starts_temporary f && ltb abandoned_temporary_age (now - f.modified)
      then (do remove os f.name; remove_each now fs)
      else remove_each now fs

  unfoldable pub remove_abandoned_temporaries : ℕ → Action Unit
  unfolding remove_each
  remove_abandoned_temporaries now = do files ← read_directory os; remove_each now files

  -- `open`, from the creation of the directory on: `directory_ready` is what creating, inspecting
  -- and protecting it answered.
  unfoldable pub open_queue : Bool → ℕ → Action Unit
  unfolding remove_abandoned_temporaries
  open_queue directory_ready now =
      if directory_ready
      then (do
        modify (λ q. record q { next_sequence = 0; counters = no_counts })
        remove_abandoned_temporaries now
        es ← entries is_uuid os
        modify (λ q. record q { next_sequence = next_after es })
        publish_health is_uuid os)
      else raise cannot_create

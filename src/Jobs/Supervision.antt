-- ===== src/Jobs/Supervision.antt =====
-- The loop that watches a running capability: `Worker::run` of agent/src/jobs/worker.rs.
--
-- `wait` ends when the channel has something or the time is over; which it was, and how long it
-- took, the environment says. A loop that has used up its fuel ends as `unfinished`.
pub mod Deadline
use renga.Prelude.{
  ℕ, zero, suc, ◌+◌, ◌/◌, min, max, Bool, true, false, ◌&&◌, ◌||◌, not, Option, none, some, leb,
  if◌then◌else◌, Result, ok, err, pure, gets, ◌>>=◌, ◌>>◌, modify, ◌++◌, ◌∷◌, [], ◌*◌,
}
use renga.Bytes.{Bytes}
use renga.Jobs.Record.{
  Outcome, progress, succeeded, failed, cancelled, Payload, empty_object, failure, result_of,
  Reason, timed_out, stopped_unexpectedly,
}
use renga.Jobs.Catalog.{Capability}
use renga.Jobs.Reporter.{
  LeasedJob, JobFailure, stopped_early, failed_with, Received, completed, nothing, disconnected,
  Environment, Worker, Action, ask, lose, cancel, launched, send,
}

pub data Ended : Type 0 where
  shut_down unfinished : Ended
  broke : Result Bytes JobFailure → Bool → Ended

-- 20 seconds.
abbrev pub heartbeat : ℕ
heartbeat = 20 * 1000

unfoldable pub cancelled_outcome : Outcome
cancelled_outcome = record { kind = cancelled; payload = empty_object }

-- What a run's end is reported as; `none` leaves the job started without an outcome.
unfoldable pub outcome_of : Ended → Option Outcome
unfolding cancelled_outcome
outcome_of shut_down = none
outcome_of unfinished = none
outcome_of (broke (ok result) cancel_requested) =
    some (record { kind = succeeded; payload = result_of result })
outcome_of (broke (err stopped_early) cancel_requested) =
    if cancel_requested then some cancelled_outcome else none
outcome_of (broke (err (failed_with reason)) cancel_requested) =
    some (record { kind = failed; payload = failure reason })

abbrev pub cancel_if : Bool → Worker → Worker
cancel_if true w = cancel w
cancel_if false w = w

abbrev pub lose_and_cancel_if : Bool → Worker → Worker
lose_and_cancel_if true w = cancel (lose w)
lose_and_cancel_if false w = w

abbrev pub asks_cancel : Option Bool → Bool
asks_cancel none = false
asks_cancel (some b) = b

module _ (env : Environment) (timeout deadline : ℕ) where
  unfoldable pub time_out : Bool → Action Ended
  time_out cancel_requested = do
    modify cancel
    pure (broke (err (failed_with (timed_out (timeout / 1000)))) cancel_requested)

  -- A message of the channel; `idle` goes on where it is empty.
  unfoldable pub take_result : Received → Bool → Action Ended → Action Ended
  unfolding time_out
  take_result (completed at result) cancel_requested idle =
      if leb at deadline then pure (broke result cancel_requested) else time_out cancel_requested
  take_result disconnected cancel_requested idle =
      pure (broke (err (failed_with stopped_unexpectedly)) cancel_requested)
  take_result nothing cancel_requested idle = idle

  unfoldable pub wait : Bool → Action Ended → Action Ended
  unfolding take_result
  wait cancel_requested again = do
    _ ← ask env.now
    message ← ask env.received
    take_result message cancel_requested again

  -- The heartbeat and what is read again after it; `again` goes on with the time of the next one.
  unfoldable pub beat : Bool → (ℕ → Bool → Action Ended) → Action Ended
  unfolding wait
  beat cancel_requested again = do
    ack ← send env progress empty_object
    modify (cancel_if (asks_cancel ack && not cancel_requested))
    modify (λ w. cancel_if w.reporter.lost w)
    stopped ← ask env.stopped
    if stopped then (do modify cancel; pure shut_down) else (do
      now ← ask env.now
      message ← ask env.received
      let asked = cancel_requested || asks_cancel ack
      take_result message asked
          (if leb deadline now then time_out asked else wait asked (again (now + heartbeat) asked)))

  unfoldable pub supervise : ℕ → ℕ → Bool → Action Ended
  unfolding beat
  supervise zero next_heartbeat cancel_requested = pure unfinished
  supervise (suc fuel) next_heartbeat cancel_requested = do
    now ← ask env.now
    stopped ← ask env.stopped
    if stopped then (do modify cancel; pure shut_down) else (do
      modify (λ w. lose_and_cancel_if (leb w.reporter.lease_deadline now) w)
      if leb deadline now
          then time_out cancel_requested
          else (if leb next_heartbeat now
              then beat cancel_requested (supervise fuel)
              else wait cancel_requested (supervise fuel next_heartbeat cancel_requested)))

module _ (env : Environment) (fuel : ℕ) where
  -- The start of the thread, which the policy's lock orders before or after a reload.
  abbrev pub launch : LeasedJob → Worker → Worker
  launch job w = record w {
    cancelled = false;
    events = w.events ++ launched job.id w.records.disk ∷ [];
  }

  unfoldable pub run : LeasedJob → Capability → Action (Option Outcome)
  unfolding supervise
  run job capability = do
    let timeout = min capability.timeout (max job.timeout_ms 1)
    started ← ask env.now
    current ← ask env.current
    if not current then pure none else (do
      modify (launch job)
      now ← ask env.now
      ended ← supervise env timeout (started + timeout) fuel (now + heartbeat) false
      pure (outcome_of ended))

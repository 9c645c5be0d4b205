-- ===== src/Jobs/Reporter.antt =====
-- What the job worker does to its surroundings, and the reports of one lease:
-- `Reporter` of agent/src/jobs/worker.rs and the report types of agent/src/payload.rs.
--
-- Each reading of a clock, a flag or a channel is one tick, and the environment answers by the tick.
-- Times are milliseconds: `now` of the process's clock and `date` of the calendar's.
use renga.Prelude.{
  ℕ, suc, ◌+◌, ◌-◌, Bool, true, false, ◌||◌, Option, none, some, List, [], ◌∷◌, ◌++◌, leb,
  if◌then◌else◌, Result, ok, Stateful, pure, gets, ◌>>=◌, ◌>>◌, modify, ◌*◌,
}
use renga.Bytes.{Bytes}
use renga.Jobs.Record.{ReportType, Payload, Reason, JobRecord, JobRecords, RecordError, Write, Load}

pub record LeasedJob : Type 0 where
  pub id : ℕ
  pub capability : Bytes
  pub parameters : Bytes
  pub attempt : ℕ
  pub lease_token : Bytes
  pub lease_expires_at : ℕ
  pub timeout_ms : ℕ
  pub output_limit_bytes : ℕ

-- Renga's answer to a report: an acknowledgement, with whether someone asked to cancel; status 401,
-- 403 or 409; or any other failure.
pub data Reply : Type 0 where
  acknowledged : Bool → Reply
  withdrawn unanswered : Reply

pub data JobFailure : Type 0 where
  stopped_early : JobFailure
  failed_with : Reason → JobFailure

-- What the channel from the capability's thread holds: a result and when it was made, nothing yet,
-- or that the thread is gone.
pub data Received : Type 0 where
  completed : ℕ → Result Bytes JobFailure → Received
  nothing disconnected : Received

pub record Environment : Type 0 where
  pub now : ℕ → ℕ
  pub date : ℕ → ℕ
  pub current : ℕ → Bool
  pub stopped : ℕ → Bool
  pub reply : ℕ → Reply
  pub received : ℕ → Received
  pub write : ℕ → Write
  pub load : ℕ → Load
  pub lease : ℕ → Option (List LeasedJob)

pub record Reporter : Type 0 where
  pub job_id : ℕ
  pub lease_token : Bytes
  pub sequence : ℕ
  pub lease_deadline : ℕ
  pub lost : Bool

-- A report that was sent, and the start of a capability with what `jobs.json` held then.
pub data Event : Type 0 where
  reported : ℕ → Bytes → ℕ → ReportType → Payload → Reply → Event
  launched : ℕ → List JobRecord → Event

-- `cancelled` is the flag that the running capability watches.
pub record Worker : Type 0 where
  pub tick : ℕ
  pub records : JobRecords
  pub reporter : Reporter
  pub cancelled : Bool
  pub events : List Event

pub data PassError : Type 0 where
  record_failed : RecordError → PassError
  lease_failed : PassError

abbrev pub Action : Type 0 → Type 0
Action = Stateful Worker PassError

abbrev pub ask : {A : Type 0} → (ℕ → A) → Action A
ask f w = (ok (f w.tick), record w { tick = suc w.tick })

abbrev pub lose : Worker → Worker
lose w = record w { reporter = record w.reporter { lost = true } }

abbrev pub cancel : Worker → Worker
cancel w = record w { cancelled = true }

abbrev pub number_next : Worker → Worker
number_next w = record w { reporter = record w.reporter { sequence = suc w.reporter.sequence } }

abbrev pub log_report : ReportType → Payload → Reply → Worker → Worker
log_report kind payload reply w = record w {
  events =
      w.events
      ++ reported w.reporter.job_id w.reporter.lease_token w.reporter.sequence kind payload reply
        ∷ [];
}

-- Renga's lease lasts this long from the sending of the last accepted report.
abbrev pub lease_time : ℕ
lease_time = 60 * 1000

abbrev pub renew : ℕ → Worker → Worker
renew sent_at w = record w {
  reporter = record w.reporter { lease_deadline = sent_at + lease_time };
}

unfoldable pub take_reply : ℕ → Reply → Action (Option Bool)
take_reply sent_at (acknowledged cancel_requested) = do
  modify (renew sent_at)
  pure (some cancel_requested)
take_reply sent_at withdrawn = do modify lose; pure none
take_reply sent_at unanswered = pure none

module _ (env : Environment) where
  abbrev pub new_reporter : LeasedJob → Action Unit
  new_reporter job = do
    now ← ask env.now
    date ← ask env.date
    modify (λ w. record w {
      reporter = record {
        job_id = job.id;
        lease_token = job.lease_token;
        sequence = 0;
        lease_deadline = now + (job.lease_expires_at - date);
        lost = false;
      };
    })

  -- Whether Renga acknowledged, and then whether it asks to cancel.
  unfoldable pub send : ReportType → Payload → Action (Option Bool)
  unfolding take_reply
  send kind payload = do
    reporter ← gets (λ w. w.reporter)
    now ← ask env.now
    if reporter.lost || leb reporter.lease_deadline now then (do modify lose; pure none) else (do
      modify number_next
      sent_at ← ask env.now
      reply ← ask env.reply
      modify (log_report kind payload reply)
      take_reply sent_at reply)

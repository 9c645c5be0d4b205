-- ===== src/Jobs/Worker.antt =====
-- Leasing and running jobs: `Worker` of agent/src/jobs/worker.rs.
pub mod Keeps
pub mod Sent
pub mod Numbering
pub mod Once
pub mod Launching
pub mod Pass
use renga.Prelude.{
  ℕ, zero, suc, ◌+◌, Bool, true, false, not, Option, none, some, List, [], ◌∷◌, leb, if◌then◌else◌,
  length, Result, ok, err, pure, raise, gets, ◌>>=◌, ◌>>◌, modify,
}
use renga.Jobs.Record.{
  RetryClass, imperative, Outcome, JobRecord, JobRecords, RecordError, Reason, not_enabled,
  partly_run, cannot_record, started, failed, failure, empty_object, get, start, finish, confirm,
  open_records,
}
use renga.Jobs.Catalog.{Capability, JobPolicy, enabled, enabled_keys}
use renga.Jobs.Reporter.{
  LeasedJob, Environment, Worker, Action, PassError, record_failed, lease_failed, ask, new_reporter,
  send,
}
use renga.Jobs.Supervision.{run, cancelled_outcome}

abbrev pub max_jobs_per_pass : ℕ
max_jobs_per_pass = 10

abbrev pub is_imperative : RetryClass → Bool
is_imperative imperative = true
is_imperative _ = false

abbrev pub failed_outcome : Reason → Outcome
failed_outcome reason = record { kind = failed; payload = failure reason }

abbrev pub store :
    Result (Unit {0}) RecordError × JobRecords → Worker → Result Bool PassError × Worker
store (ok _, rs) w = (ok true, record w { records = rs })
store (err _, rs) w = (ok false, record w { records = rs })

-- A call on the records: whether it succeeded.
abbrev pub on_records : (JobRecords → Result (Unit {0}) RecordError × JobRecords) → Action Bool
on_records f w = store (f w.records) w

module _ (env : Environment) where
  unfoldable pub confirm_job : ℕ → Action Unit
  confirm_job id = do
    date ← ask env.date
    written ← ask env.write
    on_records (confirm id date written)
    pure tt

  unfoldable pub report_outcome : ℕ → Outcome → Action Unit
  unfolding confirm_job
  report_outcome id outcome = do
    ack ← send env outcome.kind outcome.payload
    elim ack [ none ↦ pure tt | some _ ↦ confirm_job id ]

  -- The outcome is recorded before it is reported.
  unfoldable pub finish_job : ℕ → Outcome → Action Unit
  unfolding report_outcome
  finish_job id outcome = do
    date ← ask env.date
    written ← ask env.write
    on_records (finish id outcome date written)
    lost ← gets (λ w. w.reporter.lost)
    if lost then pure tt else report_outcome id outcome

  unfoldable pub refuse : Reason → Action Unit
  refuse reason = do send env failed (failure reason); pure tt

module _ (env : Environment) (fuel : ℕ) where
  unfoldable pub run_acknowledged : LeasedJob → Capability → Bool → Action Unit
  unfolding finish_job
  run_acknowledged job capability cancel_requested = do
    outcome ←
        if cancel_requested then pure (some cancelled_outcome) else run env fuel job capability
    elim outcome [ none ↦ pure tt | some o ↦ finish_job env job.id o ]

  unfoldable pub report_started : LeasedJob → Capability → Action Unit
  unfolding run_acknowledged
  report_started job capability = do
    ack ← send env started empty_object
    elim ack [
      | none ↦ pure tt
      | some cancel_requested ↦ do
        current ← ask env.current
        if current then run_acknowledged job capability cancel_requested else pure tt
    ]

  unfoldable pub start_job : LeasedJob → Capability → Action Unit
  unfolding refuse report_started
  start_job job capability = do
    date ← ask env.date
    written ← ask env.write
    recorded ← on_records (start job.id job.capability capability.retry_class date written)
    if not recorded then refuse env cannot_record else (do
      current ← ask env.current
      if current then report_started job capability else pure tt)

  -- A job that was delivered before.
  unfoldable pub resume_job : LeasedJob → Capability → Option Outcome → Action Unit
  unfolding report_outcome finish_job start_job
  resume_job job capability (some outcome) = report_outcome env job.id outcome
  resume_job job capability none =
      if is_imperative capability.retry_class
      then finish_job env job.id (failed_outcome partly_run)
      else start_job job capability

  unfoldable pub handle_enabled : LeasedJob → Capability → Action Unit
  unfolding resume_job start_job
  handle_enabled job capability = do
    records ← gets (λ w. w.records)
    elim (get job.id records) [
      | none ↦ start_job job capability
      | some r ↦ resume_job job capability r.outcome
    ]

  module _ (catalog : List Capability) (policy : JobPolicy) where
    unfoldable pub handle : LeasedJob → Action Unit
    unfolding refuse handle_enabled
    handle job = do
      current ← ask env.current
      if not current then pure tt else (do
        new_reporter env job
        elim (enabled catalog job.capability policy) [
          | none ↦ refuse env not_enabled
          | some capability ↦ handle_enabled job capability
        ])

    unfoldable pub handle_each : List LeasedJob → Action Unit
    unfolding handle
    handle_each [] = pure tt
    handle_each (job ∷ jobs) = do handle job; handle_each jobs

    -- The loop of `run_pass`: each round handles a job or ends it, so that as many rounds as jobs
    -- are enough.
    unfoldable pub lease_each : ℕ → ℕ → Action ℕ
    unfolding handle_each
    lease_each zero handled = pure handled
    lease_each (suc rounds) handled = if leb max_jobs_per_pass handled then pure handled else (do
      stopped ← ask env.stopped
      if stopped then pure handled else (do
        current ← ask env.current
        if not current then pure handled else (do
          leased ← ask env.lease
          elim leased [
            | none ↦ raise lease_failed
            | some jobs ↦ do
              still_current ← ask env.current
              if not still_current then pure handled else elim jobs [
                | [] ↦ pure handled
                | job ∷ more ↦ do
                  handle_each (job ∷ more)
                  lease_each rounds (handled + length (job ∷ more))
              ]
          ])))

    unfoldable pub run_pass : Action ℕ
    unfolding lease_each
    run_pass = do
      current ← ask env.current
      if not current then pure 0 else elim (enabled_keys catalog policy) [
        | [] ↦ pure 0
        | _ ∷ _ ↦ do
          loaded ← ask env.load
          elim (open_records loaded) [
            | err e ↦ raise (record_failed e)
            | ok records ↦ do
              modify (λ w. record w { records = records })
              lease_each max_jobs_per_pass 0
          ]
      ]

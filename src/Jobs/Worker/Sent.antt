-- ===== src/Jobs/Worker/Sent.antt =====
-- What one call of `Reporter::send` of agent/src/jobs/worker.rs does, and the handling of a job as a
-- sequence of such calls.
use renga.Prelude.{
  ℕ, suc, ◌+◌, ◌≡◌, refl, Bool, true, false, ◌||◌, not, Option, none, some, ◌∷◌, [], ◌++◌, leb,
  if◌then◌else◌, pure, Bool-cases, inl, inr, arith, min, max, ◌>>=◌,
}
use renga.Jobs.Record.{
  ReportType, Payload, Outcome, JobRecord, cannot_record, started, empty_object, partly_run, get,
  start,
}
use renga.Jobs.Catalog.{Capability}
use renga.Jobs.Reporter.{
  LeasedJob, Reply, acknowledged, withdrawn, unanswered, Environment, Worker, Action, ask, Event,
  reported, take_reply, send,
}
use renga.Jobs.Supervision.{cancelled_outcome, run, launch, supervise, heartbeat}
use renga.Jobs.Worker.{
  on_records, finish_job, run_acknowledged, report_started, start_job, resume_job, handle_enabled,
  is_imperative, failed_outcome,
}
use renga.Jobs.Worker.Keeps.{
  Keeps, resume-Keeps, if-Keeps, Stable, on_records-Keeps, finish_job-Keeps, refuse-Keeps,
  report_outcome-Keeps, supervise-Keeps, ticked,
}

abbrev pub withdraws : Reply → Bool
withdraws withdrawn = true
withdraws _ = false

abbrev pub report_of : ReportType → Payload → Reply → Worker → Event
report_of kind payload reply w =
    reported w.reporter.job_id w.reporter.lease_token (suc w.reporter.sequence) kind payload reply

-- A call under a lost or expired lease sends nothing, and the lease stays lost; any other sends one
-- report with the next number, and the lease is lost exactly if Renga answers so.
pub data Sent (kind : ReportType) (payload : Payload) (w x : Worker) : Type 0 where
  blocked :
      x.events ≡ w.events
      → x.reporter.sequence ≡ w.reporter.sequence
      → x.reporter.lost ≡ true
      → x.records ≡ w.records
      → Sent kind payload w x
  posted :
      (reply : Reply)
      → w.reporter.lost ≡ false
      → x.events ≡ w.events ++ report_of kind payload reply w ∷ []
      → x.reporter.sequence ≡ suc w.reporter.sequence
      → x.reporter.lost ≡ withdraws reply
      → x.records ≡ w.records
      → Sent kind payload w x

pub send-Sent :
    (env : Environment) (kind : ReportType) (payload : Payload) (w : Worker)
    → Sent kind payload w (send env kind payload w).1
unfolding send take_reply
send-Sent env kind payload w =
    elim (Bool-cases (w.reporter.lost || leb w.reporter.lease_deadline (env.now w.tick))) [
      | inl y ↦
          blocked (ground (arith, y)) (ground (arith, y)) (ground (arith, y)) (ground (arith, y))
      | inr n ↦ go (env.reply (suc (suc w.tick))) refl n
    ]
  where
    go :
        (reply : Reply)
        → env.reply (suc (suc w.tick)) ≡ reply
        → (w.reporter.lost || leb w.reporter.lease_deadline (env.now w.tick)) ≡ false
        → Sent kind payload w (send env kind payload w).1
    go (acknowledged b) k n =
        posted (acknowledged b) (ground (arith, n)) (ground (arith, n, k)) (ground (arith, n, k))
          (ground (arith, n, k)) (ground (arith, n, k))
    go withdrawn k n =
        posted withdrawn (ground (arith, n)) (ground (arith, n, k)) (ground (arith, n, k))
          (ground (arith, n, k)) (ground (arith, n, k))
    go unanswered k n =
        posted unanswered (ground (arith, n)) (ground (arith, n, k)) (ground (arith, n, k))
          (ground (arith, n, k)) (ground (arith, n, k))

module _ (env : Environment) (fuel : ℕ) (I : Worker → Type 0) (s : Stable env I)
    (launches : (job : LeasedJob) (w : Worker) → I w → I (launch env fuel job w)) where
  run-Keeps : (job : LeasedJob) (c : Capability) → Keeps I (run env fuel job c)
  unfolding run
  run-Keeps job c w i =
      let x = ticked (ticked w) in
      let kept : I x = s.ticks (ticked w) (s.ticks w i) in
      let y = ticked (launch env fuel job x) in
      let timeout = min c.timeout (max job.timeout_ms 1) in
      if-Keeps I (not (env.current (suc w.tick))) _ _ x kept (
        resume-Keeps I
          (supervise env timeout (env.now w.tick + timeout) fuel (env.now x.tick + heartbeat) false
            y)
          _ (supervise-Keeps env I s timeout _ fuel _ false y (s.ticks _ (launches job x kept)))
          λ _ _ j. j)

  run_acknowledged-Keeps :
      (job : LeasedJob) (c : Capability) (asked : Bool)
      → Keeps I (run_acknowledged env fuel job c asked)
  unfolding run_acknowledged
  run_acknowledged-Keeps job c asked w i =
      resume-Keeps I ((if asked then pure (some cancelled_outcome) else run env fuel job c) w) _
        (if-Keeps I asked (pure (some cancelled_outcome)) (run env fuel job c) w i
          (run-Keeps job c w i))
        go
    where
      go :
          (o : Option Outcome)
          → Keeps I (elim o [ none ↦ pure tt | some x ↦ finish_job env job.id x ])
      go none x j = j
      go (some o) x j = finish_job-Keeps env I s job.id o x j

  report_started-Keeps :
      (job : LeasedJob) (c : Capability) → Keeps I (report_started env fuel job c)
  unfolding report_started
  report_started-Keeps job c w i =
      resume-Keeps I (send env started empty_object w) _ (s.sends _ _ w i) go
    where
      go :
          (ack : Option Bool)
          → Keeps I (elim ack [
            | none ↦ pure tt
            | some asked ↦
                (ask env.current >>= λ current.
                if current then run_acknowledged env fuel job c asked else pure tt)
          ])
      go none x j = j
      go (some asked) x j =
          if-Keeps I (env.current x.tick) _ _ (ticked x)
            (run_acknowledged-Keeps job c asked _ (s.ticks x j)) (s.ticks x j)

  start_job-Keeps : (job : LeasedJob) (c : Capability) → Keeps I (start_job env fuel job c)
  unfolding start_job
  start_job-Keeps job c w i =
      let f =
        start job.id job.capability c.retry_class (env.date w.tick) (env.write (suc w.tick)) in
      resume-Keeps I (on_records f (ticked (ticked w))) _
        (on_records-Keeps env I s f _ (s.ticks _ (s.ticks w i)))
        λ recorded x j. if-Keeps I (not recorded) _ _ x (refuse-Keeps env I s cannot_record x j) (
          if-Keeps I (env.current x.tick) _ _ (ticked x)
            (report_started-Keeps job c _ (s.ticks x j)) (s.ticks x j))

  resume_job-Keeps :
      (job : LeasedJob) (c : Capability) (o : Option Outcome)
      → Keeps I (resume_job env fuel job c o)
  unfolding resume_job
  resume_job-Keeps job c (some o) w i = report_outcome-Keeps env I s job.id o w i
  resume_job-Keeps job c none w i =
      if-Keeps I (is_imperative c.retry_class) _ _ w
        (finish_job-Keeps env I s job.id (failed_outcome partly_run) w i)
        (start_job-Keeps job c w i)

  pub handle_enabled-Keeps :
      (job : LeasedJob) (c : Capability) → Keeps I (handle_enabled env fuel job c)
  unfolding handle_enabled
  handle_enabled-Keeps job c w i = go (get job.id w.records)
    where
      go :
          (r : Option JobRecord)
          → let m : Action Unit = elim r [
            | none ↦ start_job env fuel job c
            | some x ↦ resume_job env fuel job c x.outcome
          ] in
            I (m w).1
      go none = start_job-Keeps job c w i
      go (some x) = resume_job-Keeps job c x.outcome w i

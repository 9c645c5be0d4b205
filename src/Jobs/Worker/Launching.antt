-- ===== src/Jobs/Worker/Launching.antt =====
-- What has happened before agent/src/jobs/worker.rs starts a capability.
use renga.Prelude.{
  ℕ, suc, ◌+◌, ◌≡◌, refl, sym, subst, Bool, true, false, not, Option, none, some, List, ◌∷◌, [],
  ◌++◌, if◌then◌else◌, find, min, max, All, Result, ok, err, pure, resume, ◌>>=◌, Bool-cases,
  Option-cases, inl, inr,
}
use renga.Jobs.Record.{
  new_record, ReportType, Payload, Outcome, JobRecord, JobRecords, RecordError, is_job, get, start,
  started, empty_object, not_enabled, partly_run, cannot_record,
}
use renga.Jobs.Record.Recorded.{start_recorded}
use renga.Jobs.Catalog.{Capability, JobPolicy, enabled}
use renga.Jobs.Reporter.{
  PassError, LeasedJob, Environment, Worker, Action, Event, reported, launched, new_reporter, send,
  ask,
}
use renga.Jobs.Supervision.{run, supervise, launch, cancelled_outcome, heartbeat}
use renga.Jobs.Worker.{
  handle, handle_enabled, start_job, report_started, run_acknowledged, resume_job, is_imperative,
  finish_job, failed_outcome, store,
}
use renga.Jobs.Worker.Keeps.{
  Keeps, Stable, resume-Keeps, if-Keeps, refuse-Keeps, report_outcome-Keeps, finish_job-Keeps,
  supervise-Keeps, ticked,
}
use renga.Jobs.Worker.Sent.{Sent, blocked, posted, send-Sent}

-- When a capability was started, the file had its job as started and without an outcome.
abbrev pub OnDisk : Event → Type 0
OnDisk (reported _ _ _ _ _ _) = Unit {0}
OnDisk (launched id disk) = (r : JobRecord) × (find (is_job id) disk ≡ some r) × (r.outcome ≡ none)

All-snoc : (es : List Event) (e : Event) → All OnDisk es → OnDisk e → All OnDisk (es ++ e ∷ [])
All-snoc [] e a h = (h, tt)
All-snoc (x ∷ es) e a h = (a.0, All-snoc es e a.1 h)

abbrev pub Recorded : Worker → Type 0
Recorded w = All OnDisk w.events

pub Recorded-Stable : (env : Environment) → Stable env Recorded
Recorded-Stable env = record {
  ticks = λ w i. i;
  cancels = λ w i. i;
  loses = λ w i. i;
  stores = λ w rs i. i;
  sends = λ kind payload w i. go kind payload w _ (send-Sent env kind payload w) i;
}
  where
    go :
        (kind : ReportType) (payload : Payload) (w x : Worker)
        → Sent kind payload w x
        → Recorded w
        → Recorded x
    go kind payload w x (blocked ev _ _ _) i = subst (All OnDisk) (sym ev) i
    go kind payload w x (posted reply _ ev _ _ _) i =
        subst (All OnDisk) (sym ev) (All-snoc w.events _ i tt)

send-records :
    (env : Environment) (kind : ReportType) (payload : Payload) (w : Worker)
    → (send env kind payload w).1.records ≡ w.records
send-records env kind payload w = go w _ (send-Sent env kind payload w)
  where
    go : (w x : Worker) → Sent kind payload w x → x.records ≡ w.records
    go w x (blocked _ _ _ e) = e
    go w x (posted _ _ _ _ _ e) = e

-- The job is recorded on the disk and everything before was.
abbrev Ready : ℕ → Worker → Type 0
Ready id w = Recorded w × OnDisk (launched id w.records.disk)

module _ (env : Environment) (fuel : ℕ) where
  run-Recorded :
      (job : LeasedJob) (c : Capability) (w : Worker)
      → Ready job.id w
      → Recorded (run env fuel job c w).1
  unfolding run
  run-Recorded job c w i =
      let x = ticked (ticked w) in
      let y = ticked (launch env fuel job x) in
      let timeout = min c.timeout (max job.timeout_ms 1) in
      if-Keeps Recorded (not (env.current (suc w.tick))) _ _ x i.0 (
        resume-Keeps Recorded
          (supervise env timeout (env.now w.tick + timeout) fuel (env.now x.tick + heartbeat) false
            y)
          _
          (supervise-Keeps env Recorded (Recorded-Stable env) timeout _ fuel _ false y
            (All-snoc w.events _ i.0 i.1))
          λ _ _ j. j)

  run_acknowledged-Recorded :
      (job : LeasedJob) (c : Capability) (asked : Bool) (w : Worker)
      → Ready job.id w
      → Recorded (run_acknowledged env fuel job c asked w).1
  unfolding run_acknowledged
  run_acknowledged-Recorded job c asked w i =
      resume-Keeps Recorded
        ((if asked then pure (some cancelled_outcome) else run env fuel job c) w) _
        (if-Keeps Recorded asked (pure (some cancelled_outcome)) (run env fuel job c) w i.0
          (run-Recorded job c w i))
        go
    where
      go :
          (o : Option Outcome)
          → Keeps Recorded (elim o [ none ↦ pure tt | some x ↦ finish_job env job.id x ])
      go none x j = j
      go (some o) x j = finish_job-Keeps env Recorded (Recorded-Stable env) job.id o x j

  report_started-Recorded :
      (job : LeasedJob) (c : Capability) (w : Worker)
      → Ready job.id w
      → Recorded (report_started env fuel job c w).1
  unfolding report_started
  report_started-Recorded job c w i =
      let same = send-records env started empty_object w in
      go (send env started empty_object w) (
        (Recorded-Stable env).sends started empty_object w i.0,
        subst (λ rs. OnDisk (launched job.id rs.disk)) (sym same) i.1,
      )
    where
      after_ack :
          (ack : Option Bool) (x : Worker)
          → Ready job.id x
          → let m : Action Unit = elim ack [
            | none ↦ pure tt
            | some asked ↦
                (ask env.current >>= λ current.
                if current then run_acknowledged env fuel job c asked else pure tt)
          ] in
            Recorded (m x).1
      after_ack none x j = j.0
      after_ack (some asked) x j =
          if-Keeps Recorded (env.current x.tick) _ _ (ticked x)
            (run_acknowledged-Recorded job c asked (ticked x) j) j.0

      go :
          (p : Result (Option Bool) PassError × Worker)
          → Ready job.id p.1
          → Recorded
              (resume p (λ ack. elim ack [
                | none ↦ pure tt
                | some asked ↦
                    (ask env.current >>= λ current.
                    if current then run_acknowledged env fuel job c asked else pure tt)
              ])).1
      go (ok ack, x) j = after_ack ack x j
      go (err e, x) j = j.0

  start_job-Recorded :
      (job : LeasedJob) (c : Capability) (w : Worker)
      → Recorded w
      → Recorded (start_job env fuel job c w).1
  unfolding start_job get
  start_job-Recorded job c w i =
      go _
        (start job.id job.capability c.retry_class (env.date w.tick) (env.write (suc w.tick))
          w.records)
        refl
        (λ rs o.
          if-Keeps Recorded (env.current (suc (suc w.tick))) _ _
            (record w { tick = suc (suc (suc w.tick)); records = rs })
            (report_started-Recorded job c
              (record w { tick = suc (suc (suc w.tick)); records = rs }) (i, o))
            i)
        (λ rs.
          refuse-Keeps env Recorded (Recorded-Stable env) cannot_record
            (record w { tick = suc (suc w.tick); records = rs }) i)
    where
      go :
          (f : Bool → Action Unit) (p : Result (Unit {0}) RecordError × JobRecords)
          → start job.id job.capability c.retry_class
              (env.date w.tick)
              (env.write (suc w.tick))
              w.records
            ≡ p
          → ((rs : JobRecords)
              → OnDisk (launched job.id rs.disk)
              → Recorded (f true (record w { tick = suc (suc w.tick); records = rs })).1)
          → ((rs : JobRecords)
              → Recorded (f false (record w { tick = suc (suc w.tick); records = rs })).1)
          → Recorded (resume (store p (record w { tick = suc (suc w.tick) })) f).1
      go f (ok tt, rs) h k l =
          let (found, same, _) =
            start_recorded job.id job.capability c.retry_class (env.date w.tick)
              (env.write (suc w.tick)) w.records rs h in
          let fresh = new_record job.id job.capability c.retry_class (env.date w.tick) in
          k rs (fresh, subst (λ l. find (is_job job.id) l ≡ some fresh) (sym same) found, refl)
      go f (err e, rs) h k l = l rs

  resume_job-Recorded :
      (job : LeasedJob) (c : Capability) (o : Option Outcome) (w : Worker)
      → Recorded w
      → Recorded (resume_job env fuel job c o w).1
  unfolding resume_job
  resume_job-Recorded job c (some o) w i =
      report_outcome-Keeps env Recorded (Recorded-Stable env) job.id o w i
  resume_job-Recorded job c none w i =
      if-Keeps Recorded (is_imperative c.retry_class) _ _ w
        (finish_job-Keeps env Recorded (Recorded-Stable env) job.id (failed_outcome partly_run) w i)
        (start_job-Recorded job c w i)

  handle_enabled-Recorded :
      (job : LeasedJob) (c : Capability) (w : Worker)
      → Recorded w
      → Recorded (handle_enabled env fuel job c w).1
  unfolding handle_enabled
  handle_enabled-Recorded job c w i = go (get job.id w.records)
    where
      go :
          (o : Option JobRecord)
          → let m : Action Unit = elim o [
            | none ↦ start_job env fuel job c
            | some x ↦ resume_job env fuel job c x.outcome
          ] in
            Recorded (m w).1
      go none = start_job-Recorded job c w i
      go (some x) = resume_job-Recorded job c x.outcome w i

  -- Whenever the handling of a job starts a capability, `jobs.json` holds the job as started and
  -- without an outcome, so that a crash from then on is seen at the next delivery, however Renga, the
  -- clock and the disk behave, if this held of all that was started before.
  pub handle-Recorded :
      (catalog : List Capability) (policy : JobPolicy) (job : LeasedJob) (w : Worker)
      → Recorded w
      → Recorded (handle env fuel catalog policy job w).1
  unfolding handle
  handle-Recorded catalog policy job w i = elim (Bool-cases (env.current w.tick)) [
    | inr n ↦ rw n i
    | inl y ↦
        let x = (new_reporter env job (record w { tick = suc w.tick })).1 in
        elim (Option-cases (enabled catalog job.capability policy)) [
          | inl e ↦ rw (y, e) (refuse-Keeps env Recorded (Recorded-Stable env) not_enabled x i)
          | inr (c, e) ↦ rw (y, e) (handle_enabled-Recorded job c x i)
        ]
  ]

-- ===== src/Jobs/Worker/Pass.antt =====
-- A whole pass of the job worker: `run_pass` of agent/src/jobs/worker.rs.
use renga.Prelude.{
  ℕ, zero, suc, ◌+◌, not, Option, none, some, List, [], ◌∷◌, leb, if◌then◌else◌, length, Result, ok,
  err, pure, raise, ◌>>=◌, ◌>>◌, modify,
}
use renga.Bytes.{Bytes}
use renga.Jobs.Record.{JobRecords, RecordError, open_records}
use renga.Jobs.Catalog.{Capability, JobPolicy, enabled_keys}
use renga.Jobs.Reporter.{LeasedJob, Environment, Worker, Action, lease_failed, record_failed, ask}
use renga.Jobs.Worker.{handle, handle_each, lease_each, run_pass, max_jobs_per_pass}
use renga.Jobs.Worker.Keeps.{Keeps, resume-Keeps, if-Keeps, Stable, ticked}
use renga.Jobs.Worker.Launching.{Recorded, Recorded-Stable, handle-Recorded}

module _ (env : Environment) (fuel : ℕ) (catalog : List Capability) (policy : JobPolicy)
    (I : Worker → Type 0) (s : Stable env I)
    (handles : (job : LeasedJob) → Keeps I (handle env fuel catalog policy job)) where
  handle_each-Keeps : (jobs : List LeasedJob) → Keeps I (handle_each env fuel catalog policy jobs)
  unfolding handle_each
  handle_each-Keeps [] w i = i
  handle_each-Keeps (job ∷ jobs) w i =
      resume-Keeps I (handle env fuel catalog policy job w) _ (handles job w i)
        λ _. handle_each-Keeps jobs

  lease_each-Keeps :
      (rounds handled : ℕ) → Keeps I (lease_each env fuel catalog policy rounds handled)
  unfolding lease_each
  lease_each-Keeps zero handled w i = i
  lease_each-Keeps (suc rounds) handled w i =
      let x = ticked w in
      let y = ticked x in
      let z = ticked y in
      let i₁ = s.ticks w i in
      let i₂ = s.ticks x i₁ in
      let i₃ = s.ticks y i₂ in
      if-Keeps I (leb max_jobs_per_pass handled) _ _ w i (
        if-Keeps I (env.stopped w.tick) _ _ x i₁ (
          if-Keeps I (not (env.current x.tick)) _ _ y i₂
            (leased (env.lease y.tick) z i₃ (lease_each-Keeps rounds))))
    where
      jobs_of :
          (jobs : List LeasedJob) (x : Worker)
          → I x
          → ((n : ℕ) → Keeps I (lease_each env fuel catalog policy rounds n))
          → let m : Action ℕ = elim jobs [
            | [] ↦ pure handled
            | job ∷ more ↦
                (handle_each env fuel catalog policy (job ∷ more)
                  >> lease_each env fuel catalog policy rounds (handled + length (job ∷ more)))
          ] in
            I (m x).1
      jobs_of [] x i k = i
      jobs_of (job ∷ more) x i k =
          resume-Keeps I (handle_each env fuel catalog policy (job ∷ more) x) _
            (handle_each-Keeps (job ∷ more) x i) λ _. k _

      leased :
          (answer : Option (List LeasedJob)) (x : Worker)
          → I x
          → ((n : ℕ) → Keeps I (lease_each env fuel catalog policy rounds n))
          → let m : Action ℕ = elim answer [
            | none ↦ raise lease_failed
            | some jobs ↦
                (ask env.current >>= λ still_current.
                if not still_current then pure handled else elim jobs [
                  | [] ↦ pure handled
                  | job ∷ more ↦
                      (handle_each env fuel catalog policy (job ∷ more)
                        >> lease_each env fuel catalog policy rounds
                            (handled + length (job ∷ more)))
                ])
          ] in
            I (m x).1
      leased none x i k = i
      leased (some jobs) x i k =
          if-Keeps I (not (env.current x.tick)) (pure handled)
            (elim jobs [
              | [] ↦ pure handled
              | job ∷ more ↦
                  (handle_each env fuel catalog policy (job ∷ more)
                    >> lease_each env fuel catalog policy rounds (handled + length (job ∷ more)))
            ])
            (ticked x) (s.ticks x i) (jobs_of jobs (ticked x) (s.ticks x i) k)

  run_pass-Keeps : Keeps I (run_pass env fuel catalog policy)
  unfolding run_pass
  run_pass-Keeps w i =
      if-Keeps I (not (env.current w.tick)) _ _ (ticked w) (s.ticks w i)
        (keyed (enabled_keys catalog policy) (ticked w) (s.ticks w i))
    where
      opened :
          (r : Result JobRecords RecordError) (x : Worker)
          → I x
          → let m : Action ℕ = elim r [
            | err e ↦ raise (record_failed e)
            | ok records ↦
                (modify (λ w. record w { records = records })
                  >> lease_each env fuel catalog policy max_jobs_per_pass 0)
          ] in
            I (m x).1
      opened (err e) x i = i
      opened (ok records) x i = lease_each-Keeps max_jobs_per_pass 0 _ (s.stores x records i)

      keyed :
          (keys : List Bytes) (x : Worker)
          → I x
          → let m : Action ℕ = elim keys [
            | [] ↦ pure 0
            | _ ∷ _ ↦
                (ask env.load >>= λ loaded. elim (open_records loaded) [
                  | err e ↦ raise (record_failed e)
                  | ok records ↦
                      (modify (λ w. record w { records = records })
                        >> lease_each env fuel catalog policy max_jobs_per_pass 0)
                ])
          ] in
            I (m x).1
      keyed [] x i = i
      keyed (_ ∷ _) x i = opened (open_records (env.load x.tick)) (ticked x) (s.ticks x i)

-- Whenever a pass starts a capability, `jobs.json` holds its job as started and without an outcome,
-- so that a crash from then on is seen at the next delivery, however Renga, the clock, the policy and
-- the disk behave and whatever the file held before, if this held of all that was started before.
pub run_pass-Recorded :
    (env : Environment) (fuel : ℕ) (catalog : List Capability) (policy : JobPolicy) (w : Worker)
    → Recorded w
    → Recorded (run_pass env fuel catalog policy w).1
run_pass-Recorded env fuel catalog policy w i =
    run_pass-Keeps env fuel catalog policy Recorded (Recorded-Stable env)
      (λ job. handle-Recorded env fuel catalog policy job) w i

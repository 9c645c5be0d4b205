-- ===== src/Jobs/Worker/Once.antt =====
-- Redelivered jobs: when agent/src/jobs/worker.rs does not run a capability again.
use renga.Prelude.{
  ℕ, suc, ◌≡◌, ◌⊎◌, refl, ap, ◌∙◌, subst, true, Option, none, some, List, ◌∷◌, [], ◌++◌, Bool-cases,
  inl, inr, arith,
}
use renga.Jobs.Record.{ReportType, Payload, Outcome, JobRecord, get, not_enabled, partly_run}
use renga.Jobs.Catalog.{Capability, JobPolicy, enabled}
use renga.Jobs.Reporter.{
  Action, LeasedJob, Environment, Worker, Event, reported, launched, new_reporter,
}
use renga.Jobs.Worker.{start_job, handle, handle_enabled, resume_job, is_imperative, failed_outcome}
use renga.Jobs.Worker.Keeps.{Stable, refuse-Keeps, report_outcome-Keeps, finish_job-Keeps}
use renga.Jobs.Worker.Sent.{Sent, blocked, posted, send-Sent}

-- How often a capability was started.
abbrev pub launches : List Event → ℕ
launches [] = 0
launches (reported _ _ _ _ _ _ ∷ es) = launches es
launches (launched _ _ ∷ es) = suc (launches es)

launches-report :
    (es : List Event) (e : Event) → launches (e ∷ []) ≡ 0 → launches (es ++ e ∷ []) ≡ launches es
launches-report [] e h = h
launches-report (reported _ _ _ _ _ _ ∷ es) e h = launches-report es e h
launches-report (launched _ _ ∷ es) e h = ap suc (launches-report es e h)

abbrev Launched : ℕ → Worker → Type 0
Launched n w = launches w.events ≡ n

Launched-Stable : (env : Environment) (n : ℕ) → Stable env (Launched n)
Launched-Stable env n = record {
  ticks = λ w i. i;
  cancels = λ w i. i;
  loses = λ w i. i;
  stores = λ w rs i. i;
  sends = λ kind payload w i. go kind payload w _ (send-Sent env kind payload w) i;
}
  where
    go :
        (kind : ReportType) (payload : Payload) (w x : Worker)
        → Sent kind payload w x
        → Launched n w
        → Launched n x
    go kind payload w x (blocked ev _ _ _) i = ap launches ev ∙ i
    go kind payload w x (posted reply _ ev _ _ _) i =
        ap launches ev ∙ launches-report w.events _ refl ∙ i

module _ (env : Environment) (fuel : ℕ) (catalog : List Capability) (policy : JobPolicy) where
  -- What keeps a redelivered job from running: it has an outcome, or its capability is imperative.
  abbrev pub Settled : Capability → JobRecord → Type 0
  Settled c r = ((o : Outcome) × (r.outcome ≡ some o)) ⊎ (is_imperative c.retry_class ≡ true)

  resume_job-Launched :
      (job : LeasedJob) (c : Capability) (r : JobRecord) (n : ℕ) (w : Worker)
      → Settled c r
      → Launched n w
      → Launched n (resume_job env fuel job c r.outcome w).1
  unfolding resume_job
  resume_job-Launched job c r n w s i = go r.outcome s
    where
      go :
          (o : Option Outcome)
          → ((x : Outcome) × (o ≡ some x)) ⊎ (is_imperative c.retry_class ≡ true)
          → Launched n (resume_job env fuel job c o w).1
      go (some x) t = report_outcome-Keeps env (Launched n) (Launched-Stable env n) job.id x w i
      go none (inl (x, e)) = cc
      go none (inr y) = rw y (
          finish_job-Keeps env (Launched n) (Launched-Stable env n) job.id
            (failed_outcome partly_run) w i)

  handle_enabled-Launched :
      (job : LeasedJob) (c : Capability) (r : JobRecord) (n : ℕ) (w : Worker)
      → get job.id w.records ≡ some r
      → Settled c r
      → Launched n w
      → Launched n (handle_enabled env fuel job c w).1
  unfolding handle_enabled
  handle_enabled-Launched job c r n w g s i = go (get job.id w.records) g
    where
      go :
          (o : Option JobRecord)
          → o ≡ some r
          → let m : Action Unit = elim o [
            | none ↦ start_job env fuel job c
            | some x ↦ resume_job env fuel job c x.outcome
          ] in
            Launched n (m w).1
      go none k = cc
      go (some x) k =
          let same : r ≡ x = ground arith in
          subst (λ z. Launched n (resume_job env fuel job c z.outcome w).1) same
            (resume_job-Launched job c r n w s i)

  -- A job that was recorded before is not run by its delivery if the record has an outcome or the
  -- capability is imperative, and a job whose capability the policy does not enable is never run,
  -- however Renga, the clock and the disk behave.
  pub handle-runs_once :
      (job : LeasedJob) (w : Worker)
      → (enabled catalog job.capability policy ≡ none)
        ⊎ ((c : Capability) × (r : JobRecord) × (enabled catalog job.capability policy ≡ some c)
            × (get job.id w.records ≡ some r)
            × Settled c r)
      → launches (handle env fuel catalog policy job w).1.events ≡ launches w.events
  unfolding handle
  handle-runs_once job w h = elim (Bool-cases (env.current w.tick)) [
    | inr n ↦ ground (arith, n)
    | inl y ↦
        let n = launches w.events in
        let x = (new_reporter env job (record w { tick = suc w.tick })).1 in
        elim h [
          | inl e ↦
              rw (y, e) (refuse-Keeps env (Launched n) (Launched-Stable env n) not_enabled x refl)
          | inr (c, r, e, g, s) ↦ rw (y, e) (handle_enabled-Launched job c r n x g s refl)
        ]
  ]

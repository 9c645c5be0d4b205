-- ===== src/Jobs/Worker/Keeps.antt =====
-- Invariants of the job worker of agent/src/jobs/worker.rs, one step at a time.
use renga.Prelude.{
  ℕ, zero, suc, ◌+◌, Bool, true, false, ◌&&◌, ◌||◌, not, Option, none, some, leb, if◌then◌else◌,
  Result, ok, err, resume, pure,
}
use renga.Jobs.Record.{
  progress, empty_object, failed, failure, ReportType, Payload, Outcome, JobRecords, RecordError,
  Reason, confirm, finish,
}
use renga.Jobs.Reporter.{
  Received, completed, nothing, disconnected, Environment, Worker, Action, PassError, lose, cancel,
  send,
}
use renga.Jobs.Supervision.{
  Ended, time_out, take_result, wait, beat, supervise, cancel_if, lose_and_cancel_if, asks_cancel,
  heartbeat,
}
use renga.Jobs.Worker.{on_records, store, confirm_job, report_outcome, finish_job, refuse}

-- An action after which the invariant holds again, however it ends.
abbrev pub Keeps : (Worker → Type 0) → {A : Type 0} → Action A → Type 0
Keeps I m = (w : Worker) → I w → I (m w).1

module _ {A B : Type 0} (I : Worker → Type 0) where
  -- The rest of a block, from what its first step left.
  pub resume-Keeps :
      (p : Result A PassError × Worker) (f : A → Action B)
      → I p.1
      → ((a : A) → Keeps I (f a))
      → I (resume p f).1
  resume-Keeps (ok a, w) f i k = k a w i
  resume-Keeps (err e, w) f i k = i

pub if-Keeps :
    {A : Type 0} (I : Worker → Type 0) (b : Bool) (m n : Action A) (w : Worker)
    → I (m w).1
    → I (n w).1
    → I ((if b then m else n) w).1
if-Keeps I true m n w i j = i
if-Keeps I false m n w i j = j

abbrev pub ticked : Worker → Worker
ticked w = record w { tick = suc w.tick }

-- The steps between reports, which an invariant of the reports need not look at.
pub record Stable (env : Environment) (I : Worker → Type 0) : Type 1 where
  pub ticks : (w : Worker) → I w → I (record w { tick = suc w.tick })
  pub cancels : (w : Worker) → I w → I (cancel w)
  pub loses : (w : Worker) → I w → I (lose w)
  pub stores : (w : Worker) (rs : JobRecords) → I w → I (record w { records = rs })
  pub sends : (kind : ReportType) (payload : Payload) → Keeps I (send env kind payload)

module _ (env : Environment) (I : Worker → Type 0) (s : Stable env I) where
  pub on_records-Keeps :
      (f : JobRecords → Result (Unit {0}) RecordError × JobRecords) → Keeps I (on_records f)
  on_records-Keeps f w i = go (f w.records)
    where
      go : (p : Result (Unit {0}) RecordError × JobRecords) → I (store p w).1
      go (ok _, rs) = s.stores w rs i
      go (err _, rs) = s.stores w rs i

  two_ticks : (w : Worker) → I w → I (ticked (ticked w))
  two_ticks w i = s.ticks (ticked w) (s.ticks w i)

  confirm_job-Keeps : (id : ℕ) → Keeps I (confirm_job env id)
  unfolding confirm_job
  confirm_job-Keeps id w i =
      let f = confirm id (env.date w.tick) (env.write (suc w.tick)) in
      resume-Keeps I (on_records f (ticked (ticked w))) _ (on_records-Keeps f _ (two_ticks w i))
        λ _ _ j. j

  pub report_outcome-Keeps : (id : ℕ) (o : Outcome) → Keeps I (report_outcome env id o)
  unfolding report_outcome
  report_outcome-Keeps id o w i =
      resume-Keeps I (send env o.kind o.payload w) _ (s.sends o.kind o.payload w i) go
    where
      go : (ack : Option Bool) → Keeps I (elim ack [ none ↦ pure tt | some _ ↦ confirm_job env id ])
      go none x j = j
      go (some _) x j = confirm_job-Keeps id x j

  pub finish_job-Keeps : (id : ℕ) (o : Outcome) → Keeps I (finish_job env id o)
  unfolding finish_job
  finish_job-Keeps id o w i =
      let f = finish id o (env.date w.tick) (env.write (suc w.tick)) in
      resume-Keeps I (on_records f (ticked (ticked w))) _ (on_records-Keeps f _ (two_ticks w i))
        λ _ x j. if-Keeps I x.reporter.lost _ _ x j (report_outcome-Keeps id o x j)

  pub refuse-Keeps : (reason : Reason) → Keeps I (refuse env reason)
  unfolding refuse
  refuse-Keeps reason w i =
      resume-Keeps I (send env failed (failure reason) w) _ (s.sends _ _ w i) λ _ _ j. j

  module _ (timeout deadline : ℕ) where
    time_out-Keeps : (asked : Bool) → Keeps I (time_out env timeout deadline asked)
    unfolding time_out
    time_out-Keeps asked = s.cancels

    take_result-Keeps :
        (message : Received) (asked : Bool) (idle : Action Ended)
        → Keeps I idle
        → Keeps I (take_result env timeout deadline message asked idle)
    unfolding take_result
    take_result-Keeps (completed at result) asked idle k w i =
        if-Keeps I (leb at deadline) _ _ w i (time_out-Keeps asked w i)
    take_result-Keeps nothing asked idle k w i = k w i
    take_result-Keeps disconnected asked idle k w i = i

    wait-Keeps :
        (asked : Bool) (again : Action Ended)
        → Keeps I again
        → Keeps I (wait env timeout deadline asked again)
    unfolding wait
    wait-Keeps asked again k w i =
        take_result-Keeps (env.received (suc w.tick)) asked again k _ (two_ticks w i)

    cancel_if-Keeps : (b : Bool) (w : Worker) → I w → I (cancel_if b w)
    cancel_if-Keeps true w i = s.cancels w i
    cancel_if-Keeps false w i = i

    lose_and_cancel_if-Keeps : (b : Bool) (w : Worker) → I w → I (lose_and_cancel_if b w)
    lose_and_cancel_if-Keeps true w i = s.cancels _ (s.loses w i)
    lose_and_cancel_if-Keeps false w i = i

    beat-Keeps :
        (asked : Bool) (again : ℕ → Bool → Action Ended)
        → ((next : ℕ) (b : Bool) → Keeps I (again next b))
        → Keeps I (beat env timeout deadline asked again)
    unfolding beat
    beat-Keeps asked again k w i =
        resume-Keeps I (send env progress empty_object w) _ (s.sends _ _ w i) λ ack x j.
          let y = cancel_if (asks_cancel ack && not asked) x in
          let z = cancel_if y.reporter.lost y in
          let kept : I z =
            cancel_if-Keeps y.reporter.lost y
              (cancel_if-Keeps (asks_cancel ack && not asked) x j) in
          if-Keeps I (env.stopped z.tick) _ _ (ticked z) (s.cancels _ (s.ticks z kept)) (
            take_result-Keeps (env.received (suc (suc z.tick))) (asked || asks_cancel ack) _
              (λ v l.
                if-Keeps I (leb deadline (env.now (suc z.tick))) _ _ v
                  (time_out-Keeps (asked || asks_cancel ack) v l)
                  (wait-Keeps (asked || asks_cancel ack)
                    (again (env.now (suc z.tick) + heartbeat) (asked || asks_cancel ack)) (k _ _) v
                    l))
              _ (two_ticks _ (s.ticks z kept)))

    pub supervise-Keeps :
        (fuel next : ℕ) (asked : Bool) → Keeps I (supervise env timeout deadline fuel next asked)
    unfolding supervise
    supervise-Keeps zero next asked w i = i
    supervise-Keeps (suc fuel) next asked w i =
        let now = env.now w.tick in
        let x = ticked (ticked w) in
        let y = lose_and_cancel_if (leb x.reporter.lease_deadline now) x in
        let kept : I y =
          lose_and_cancel_if-Keeps (leb x.reporter.lease_deadline now) x (two_ticks w i) in
        if-Keeps I (env.stopped (suc w.tick)) _ _ x (s.cancels x (two_ticks w i)) (
          if-Keeps I (leb deadline now) _ _ y (time_out-Keeps asked y kept) (
            if-Keeps I (leb next now) _ _ y
              (beat-Keeps asked (supervise env timeout deadline fuel) (supervise-Keeps fuel) y kept)
              (wait-Keeps asked (supervise env timeout deadline fuel next asked)
                (supervise-Keeps fuel next asked) y kept)))

-- ===== src/Jobs/Worker/Numbering.antt =====
-- The reports of one lease, as the job worker of agent/src/jobs/worker.rs sends them.
use renga.Prelude.{
  ℕ, zero, suc, ◌≡◌, refl, sym, ap, ◌∙◌, Bool, true, false, ◌&&◌, not, List, ◌∷◌, [], ◌++◌, any,
  any-append, Bool-cases, Option-cases, inl, inr, arith,
}
use mathlib.Core.List.{append-nil, append_assoc}
use renga.Jobs.Record.{ReportType, Payload, not_enabled}
use renga.Jobs.Catalog.{Capability, JobPolicy, enabled}
use renga.Jobs.Reporter.{LeasedJob, Environment, Worker, Event, reported, launched, new_reporter}
use renga.Jobs.Supervision.{launch}
use renga.Jobs.Worker.{handle}
use renga.Jobs.Worker.Keeps.{Stable, refuse-Keeps}
use renga.Jobs.Worker.Sent.{
  Sent, blocked, posted, send-Sent, withdraws, report_of, handle_enabled-Keeps,
}

-- The numbers of the reports, in the order in which they were sent.
abbrev pub numbers : List Event → List ℕ
numbers [] = []
numbers (reported _ _ n _ _ _ ∷ es) = n ∷ numbers es
numbers (launched _ _ ∷ es) = numbers es

-- 1, 2, …, n
abbrev pub up_to : ℕ → List ℕ
up_to zero = []
up_to (suc n) = up_to n ++ suc n ∷ []

abbrev pub is_withdrawn : Event → Bool
is_withdrawn (reported _ _ _ _ _ reply) = withdraws reply
is_withdrawn (launched _ _) = false

abbrev pub is_report : Event → Bool
is_report (reported _ _ _ _ _ _) = true
is_report (launched _ _) = false

-- No report follows one that Renga answered by withdrawing the lease.
abbrev pub ends_when_withdrawn : List Event → Bool
ends_when_withdrawn [] = true
ends_when_withdrawn (e ∷ es) = not (is_withdrawn e && any is_report es) && ends_when_withdrawn es

numbers-append : (xs ys : List Event) → numbers (xs ++ ys) ≡ numbers xs ++ numbers ys
numbers-append [] ys = refl
numbers-append (reported _ _ n _ _ _ ∷ xs) ys = ap (λ zs. n ∷ zs) (numbers-append xs ys)
numbers-append (launched _ _ ∷ xs) ys = numbers-append xs ys

ends-snoc :
    (xs : List Event) (e : Event)
    → ends_when_withdrawn xs ≡ true
    → (any is_withdrawn xs && is_report e) ≡ false
    → ends_when_withdrawn (xs ++ e ∷ []) ≡ true
ends-snoc [] e h k = ground arith
ends-snoc (x ∷ xs) e h k = ground (arith, h, k, any-append is_report xs (e ∷ []), ends-snoc xs e)

-- The events since `base`.
record Orderly (base : List Event) (w : Worker) : Type 0 where
  new : List Event
  split : w.events ≡ base ++ new
  numbered : numbers new ≡ up_to w.reporter.sequence
  ended : ends_when_withdrawn new ≡ true
  lost : any is_withdrawn new ≡ true → w.reporter.lost ≡ true

module _ (base : List Event) where
  send-Orderly :
      (kind : ReportType) (payload : Payload) (w x : Worker)
      → Sent kind payload w x
      → Orderly base w
      → Orderly base x
  send-Orderly kind payload w x (blocked ev sq lo _) i = record {
    new = i.new;
    split = ev ∙ i.split;
    numbered = i.numbered ∙ ap up_to (sym sq);
    ended = i.ended;
    lost = λ _. lo;
  }
  send-Orderly kind payload w x (posted reply held ev sq lo _) i =
      let e = report_of kind payload reply w in
      let clear : any is_withdrawn i.new ≡ false = elim (Bool-cases (any is_withdrawn i.new)) [
        | inl y ↦ absurd (ground (arith, i.lost y, held))
        | inr n ↦ n
      ] in
      record {
        new = i.new ++ e ∷ [];
        split = ev ∙ ap (λ es. es ++ e ∷ []) i.split ∙ append_assoc base i.new (e ∷ []);
        numbered =
            numbers-append i.new (e ∷ [])
            ∙ ap (λ ns. ns ++ suc w.reporter.sequence ∷ []) i.numbered
            ∙ ap up_to (sym sq);
        ended = ends-snoc i.new e i.ended (ground (arith, clear));
        lost = λ h. lo ∙ ground (arith, h, clear, any-append is_withdrawn i.new (e ∷ []));
      }

  Orderly-Stable : (env : Environment) → Stable env (Orderly base)
  Orderly-Stable env = record {
    ticks = λ w i. record {
      new = i.new;
      split = i.split;
      numbered = i.numbered;
      ended = i.ended;
      lost = i.lost;
    };
    cancels = λ w i. record {
      new = i.new;
      split = i.split;
      numbered = i.numbered;
      ended = i.ended;
      lost = i.lost;
    };
    loses = λ w i. record {
      new = i.new;
      split = i.split;
      numbered = i.numbered;
      ended = i.ended;
      lost = λ _. refl;
    };
    stores = λ w rs i. record {
      new = i.new;
      split = i.split;
      numbered = i.numbered;
      ended = i.ended;
      lost = i.lost;
    };
    sends = λ kind payload w i. send-Orderly kind payload w _ (send-Sent env kind payload w) i;
  }

  launch-Orderly :
      (env : Environment) (fuel : ℕ) (job : LeasedJob) (w : Worker)
      → Orderly base w
      → Orderly base (launch env fuel job w)
  launch-Orderly env fuel job w i =
      let e = launched job.id w.records.disk in
      record {
        new = i.new ++ e ∷ [];
        split = ap (λ es. es ++ e ∷ []) i.split ∙ append_assoc base i.new (e ∷ []);
        numbered = numbers-append i.new (e ∷ []) ∙ append-nil (numbers i.new) ∙ i.numbered;
        ended = ends-snoc i.new e i.ended (ground arith);
        lost = λ h. i.lost (ground (arith, h, any-append is_withdrawn i.new (e ∷ [])));
      }

module _ (env : Environment) (fuel : ℕ) (catalog : List Capability) (policy : JobPolicy) where
  -- However Renga, the clock and the disk behave: the reports that the handling of one lease sends
  -- are numbered 1, 2, 3 and so on without a gap, and once Renga has answered one of them with
  -- status 401, 403 or 409 no other follows.
  pub handle-reports :
      (job : LeasedJob) (w : Worker)
      → (new : List Event) × (n : ℕ) × ((handle env fuel catalog policy job w).1.events
          ≡ w.events ++ new)
        × (numbers new ≡ up_to n)
        × (ends_when_withdrawn new ≡ true)
  unfolding handle
  handle-reports job w = elim (Bool-cases (env.current w.tick)) [
    | inr n ↦ ([], 0, ground (arith, n, append-nil w.events), refl, refl)
    | inl y ↦
        let x = (new_reporter env job (record w { tick = suc w.tick })).1 in
        let fresh : Orderly w.events x = record {
          new = [];
          split = sym (append-nil w.events);
          numbered = refl;
          ended = refl;
          lost = λ h. cc;
        } in
        let done : Orderly w.events (handle env fuel catalog policy job w).1 =
          elim (Option-cases (enabled catalog job.capability policy)) [
            | inl e ↦
                rw (y, e)
                  (refuse-Keeps env (Orderly w.events) (Orderly-Stable w.events env) not_enabled x
                    fresh)
            | inr (c, e) ↦
                rw (y, e)
                  (handle_enabled-Keeps env fuel (Orderly w.events) (Orderly-Stable w.events env)
                    (launch-Orderly w.events env fuel) job c x fresh)
          ] in
        (
          done.new,
          (handle env fuel catalog policy job w).1.reporter.sequence,
          done.split,
          done.numbered,
          done.ended,
        )
  ]

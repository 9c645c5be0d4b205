-- ===== src/Jobs/Supervision/Deadline.antt =====
-- The deadline of a run in agent/src/jobs/worker.rs: late results, and the end of the loop.
use renga.Prelude.{
  ℕ, zero, suc, ◌+◌, ◌≡◌, ◌≤◌, ◌<◌, refl, ◌∙◌, Bool, true, false, ◌&&◌, ◌||◌, not, Option, none,
  some, leb, ltb, if◌then◌else◌, Result, ok, err, resume, Bool-cases, inl, inr, arith,
}
use renga.Jobs.Record.{ReportType, Payload, progress, empty_object}
use renga.Jobs.Reporter.{
  Received, completed, nothing, disconnected, Reply, acknowledged, withdrawn, unanswered,
  Environment, Worker, Action, PassError, lose, send, take_reply,
}
use renga.Jobs.Supervision.{
  Ended, broke, shut_down, unfinished, time_out, take_result, wait, beat, supervise, cancel_if,
  lose_and_cancel_if, asks_cancel, heartbeat,
}

abbrev ticked : Worker → Worker
ticked w = record w { tick = suc w.tick }

module _ (env : Environment) (timeout deadline : ℕ) where
  -- A success was read from the channel, and the capability had finished by the deadline.
  abbrev pub Timely : Result Ended PassError → Type 0
  Timely (ok (broke (ok v) _)) =
      (n : ℕ) × (at : ℕ) × (env.received n ≡ completed at (ok v)) × (at ≤ deadline)
  Timely (ok (broke (err _) _)) = Unit {0}
  Timely (ok shut_down) = Unit {0}
  Timely (ok unfinished) = Unit {0}
  Timely (err _) = Unit {0}

  resume-Timely :
      {A : Type 0} (p : Result A PassError × Worker) (f : A → Action Ended)
      → ((a : A) (w : Worker) → Timely (f a w).0)
      → Timely (resume p f).0
  resume-Timely (ok a, w) f k = k a w
  resume-Timely (err e, w) f k = tt

  if-Timely :
      (b : Bool) (m n : Action Ended) (w : Worker)
      → Timely (m w).0
      → Timely (n w).0
      → Timely ((if b then m else n) w).0
  if-Timely true m n w i j = i
  if-Timely false m n w i j = j

  take_result-Timely :
      (n : ℕ) (message : Received) (asked : Bool) (idle : Action Ended) (w : Worker)
      → env.received n ≡ message
      → Timely (idle w).0
      → Timely (take_result env timeout deadline message asked idle w).0
  unfolding take_result time_out
  take_result-Timely n (completed at (ok v)) asked idle w h k =
      elim (Bool-cases (leb at deadline)) [
        | inl y ↦ rw y (n, at, h, ground (arith, y))
        | inr l ↦ rw l tt
      ]
  take_result-Timely n (completed at (err e)) asked idle w h k =
      if-Timely (leb at deadline) _ _ w tt tt
  take_result-Timely n nothing asked idle w h k = k
  take_result-Timely n disconnected asked idle w h k = tt

  wait-Timely :
      (asked : Bool) (again : Action Ended) (w : Worker)
      → ((x : Worker) → Timely (again x).0)
      → Timely (wait env timeout deadline asked again w).0
  unfolding wait
  wait-Timely asked again w k =
      take_result-Timely (suc w.tick) (env.received (suc w.tick)) asked again (ticked (ticked w))
        refl (k _)

  beat-Timely :
      (asked : Bool) (again : ℕ → Bool → Action Ended) (w : Worker)
      → ((next : ℕ) (b : Bool) (x : Worker) → Timely (again next b x).0)
      → Timely (beat env timeout deadline asked again w).0
  unfolding beat time_out
  beat-Timely asked again w k = resume-Timely (send env progress empty_object w) _ λ ack x.
      let y = cancel_if (asks_cancel ack && not asked) x in
      let z = cancel_if y.reporter.lost y in
      let v = ticked (ticked (ticked z)) in
      let now = env.now (suc z.tick) in
      if-Timely (env.stopped z.tick) _ _ (ticked z) tt (
        take_result-Timely (suc (suc z.tick)) (env.received (suc (suc z.tick)))
          (asked || asks_cancel ack) _ v refl
          (if-Timely (leb deadline now) _ _ v tt (
            wait-Timely (asked || asks_cancel ack)
              (again (now + heartbeat) (asked || asks_cancel ack)) v (k _ _))))

  -- The result that the loop ends with as a success was read from the channel, and the capability
  -- had it no later than the deadline.
  pub supervise-Timely :
      (fuel next : ℕ) (asked : Bool) (w : Worker)
      → Timely (supervise env timeout deadline fuel next asked w).0
  unfolding supervise time_out
  supervise-Timely zero next asked w = tt
  supervise-Timely (suc fuel) next asked w =
      let now = env.now w.tick in
      let x = ticked (ticked w) in
      let y = lose_and_cancel_if (leb x.reporter.lease_deadline now) x in
      if-Timely (env.stopped (suc w.tick)) _ _ x tt (
        if-Timely (leb deadline now) _ _ y tt (
          if-Timely (leb next now) _ _ y
            (beat-Timely asked (supervise env timeout deadline fuel) y (supervise-Timely fuel))
            (wait-Timely asked (supervise env timeout deadline fuel next asked) y
              (supervise-Timely fuel next asked))))

  -- The loop came to an end of its own.
  abbrev pub finished : Result Ended PassError → Bool
  finished (ok shut_down) = true
  finished (ok (broke _ _)) = true
  finished (ok unfinished) = false
  finished (err _) = false

  if-finished :
      (b : Bool) (m n : Action Ended) (w : Worker)
      → finished (m w).0 ≡ true
      → (b ≡ false → finished (n w).0 ≡ true)
      → finished ((if b then m else n) w).0 ≡ true
  if-finished true m n w i j = i
  if-finished false m n w i j = j refl

  take_result-finished :
      (message : Received) (asked : Bool) (idle : Action Ended) (w : Worker)
      → finished (idle w).0 ≡ true
      → finished (take_result env timeout deadline message asked idle w).0 ≡ true
  unfolding take_result time_out
  take_result-finished (completed at v) asked idle w k =
      if-finished (leb at deadline) _ _ w refl (λ _. refl)
  take_result-finished nothing asked idle w k = k
  take_result-finished disconnected asked idle w k = refl

  send-ticks :
      (kind : ReportType) (payload : Payload) (w : Worker)
      → (ack : Option Bool) × (x : Worker) × (send env kind payload w ≡ (ok ack, x))
        × (w.tick < x.tick)
  unfolding send take_reply
  send-ticks kind payload w =
      elim (Bool-cases (w.reporter.lost || leb w.reporter.lease_deadline (env.now w.tick))) [
        | inl y ↦ (none, lose (ticked w), rw y refl, omega arith)
        | inr n ↦ go (env.reply (suc (suc w.tick))) refl n
      ]
    where
      go :
          (reply : Reply)
          → env.reply (suc (suc w.tick)) ≡ reply
          → (w.reporter.lost || leb w.reporter.lease_deadline (env.now w.tick)) ≡ false
          → (ack : Option Bool) × (x : Worker) × (send env kind payload w ≡ (ok ack, x))
            × (w.tick < x.tick)
      go (acknowledged b) k n =
          (some b, (send env kind payload w).1, ground (arith, n, k), ground (arith, n, k))
      go withdrawn k n =
          (none, (send env kind payload w).1, ground (arith, n, k), ground (arith, n, k))
      go unanswered k n =
          (none, (send env kind payload w).1, ground (arith, n, k), ground (arith, n, k))

  cancel_if-tick : (b : Bool) (w : Worker) → (cancel_if b w).tick ≡ w.tick
  cancel_if-tick true w = refl
  cancel_if-tick false w = refl

  lose_and_cancel_if-tick : (b : Bool) (w : Worker) → (lose_and_cancel_if b w).tick ≡ w.tick
  lose_and_cancel_if-tick true w = refl
  lose_and_cancel_if-tick false w = refl

  beat-finished :
      (asked : Bool) (again : ℕ → Bool → Action Ended) (w : Worker)
      → ((next : ℕ) (b : Bool) (x : Worker) → w.tick < x.tick → finished (again next b x).0 ≡ true)
      → finished (beat env timeout deadline asked again w).0 ≡ true
  unfolding beat wait time_out
  beat-finished asked again w k =
      let (ack, x, e, t) = send-ticks progress empty_object w in
      let y = cancel_if (asks_cancel ack && not asked) x in
      let z = cancel_if y.reporter.lost y in
      let tz : z.tick ≡ x.tick =
        cancel_if-tick y.reporter.lost y ∙ cancel_if-tick (asks_cancel ack && not asked) x in
      let v = ticked (ticked (ticked z)) in
      let now = env.now (suc z.tick) in
      rw e (
        if-finished (env.stopped z.tick) _ _ (ticked z) refl λ _.
          take_result-finished (env.received (suc (suc z.tick))) (asked || asks_cancel ack) _ v (
            if-finished (leb deadline now) _ _ v refl λ _.
              take_result-finished (env.received (suc v.tick)) (asked || asks_cancel ack)
                (again (now + heartbeat) (asked || asks_cancel ack)) (ticked (ticked v))
                (k _ _ _ (omega (arith, t, tz)))))

  -- If the clock is at the deadline from the `late`-th reading of the environment on, the loop ends,
  -- as soon as it has one more round than there are readings until then: its fuel is no limit.
  pub supervise-finished :
      (late fuel next : ℕ) (asked : Bool) (w : Worker)
      → ((n : ℕ) → late ≤ n → deadline ≤ env.now n)
      → late < w.tick + fuel
      → 0 < fuel
      → finished (supervise env timeout deadline fuel next asked w).0 ≡ true
  unfolding supervise wait time_out
  supervise-finished late zero next asked w p h k = absurd (omega (arith, k))
  supervise-finished late (suc fuel) next asked w p h k =
      let now = env.now w.tick in
      let x = ticked (ticked w) in
      let y = lose_and_cancel_if (leb x.reporter.lease_deadline now) x in
      let ty : y.tick ≡ suc (suc w.tick) =
        lose_and_cancel_if-tick (leb x.reporter.lease_deadline now) x in
      if-finished (env.stopped (suc w.tick)) _ _ x refl λ _.
        if-finished (leb deadline now) _ _ y refl λ early.
          let before : w.tick < late = elim (Bool-cases (ltb w.tick late)) [
            | inl t ↦ ground (arith, t)
            | inr t ↦ absurd (ground (arith, early, p w.tick (ground (arith, t))))
          ] in
          if-finished (leb next now) _ _ y
            (beat-finished asked (supervise env timeout deadline fuel) y λ n b z t.
              supervise-finished late fuel n b z p (omega (arith, h, t, ty))
                (omega (arith, h, before)))
            λ _.
              take_result-finished (env.received (suc y.tick)) asked
                (supervise env timeout deadline fuel next asked) (ticked (ticked y))
                (supervise-finished late fuel next asked (ticked (ticked y)) p
                  (omega (arith, h, ty)) (omega (arith, h, before)))

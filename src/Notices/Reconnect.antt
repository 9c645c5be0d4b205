-- ===== src/Notices/Reconnect.antt =====
-- That the thread of agent/src/notices.rs comes back after an outage, and when.
use native.Mathlib.Nat.{min-le_right}
use renga.Prelude.{
  inl, inr, Bool-cases, ℕ, zero, suc, ◌+◌, ◌*◌, ◌/◌, ◌≤◌, min, ◌≡◌, refl, Bool, true, false, ◌||◌,
  not, List, [], ◌∷◌, if◌then◌else◌, Result, ok, err,
}
use renga.Bytes.{Bytes}
use renga.Notices.{Environment, ListenError, Stop, failed, unfinished, Socket, listen, max_retry}
use renga.Notices.Outages.{
  Outage, jittered, sleep_each, sleep_unless, after_sleep, sleep_through, after_listen, run_each,
  run,
}
use renga.Notices.Waiting.{
  ticked, Waits, is_done, half_≤_jittered, jittered_≤, warned_lem, sleep_each-Waits,
}

-- The retry of an outage is the first one if the channel had been joined and the one carried along if
-- not, and never above the largest; the pause lies in its second half; and it is logged as a warning
-- if it is the first, or the channel had been joined.
pub record IsOutage (first_retry retry : ℕ) (quiet joined : Bool) (o : Outage) : Type 0 where
  same : o.joined ≡ joined
  retries : o.retry ≡ (if joined then first_retry else retry)
  bounded : o.retry ≤ max_retry
  warns : o.warned ≡ (joined || not quiet)
  above : o.retry / 2 ≤ o.pause
  below : o.pause ≤ o.retry

module _ (env : Environment) (topic : Bytes) (timeout fuel first_retry : ℕ) where
  -- The life of the thread from a retry and from whether an outage is known, in at most so many rounds:
  -- it is cancelled, or its connection ends without a failure; or the connection fails, and then it is
  -- cancelled, or waits until its pause is over and connects again with twice the retry.
  pub data Follows : ℕ → ℕ → Bool → Socket → List Outage → Socket → Type 0 where
    spent : (retry : ℕ) (quiet : Bool) (s : Socket) → Follows 0 retry quiet s [] s
    cancelled_first :
        (n retry : ℕ) (quiet : Bool) (s : Socket)
        → env.cancelled s.tick ≡ true
        → Follows (suc n) retry quiet s [] (ticked s)
    ended :
        (n retry : ℕ) (quiet : Bool) (s t : Socket)
        → env.cancelled s.tick ≡ false
        → listen env topic fuel timeout (ticked s) ≡ (ok tt, t)
        → Follows (suc n) retry quiet s [] t
    still_listening :
        (n retry : ℕ) (quiet : Bool) (s t : Socket)
        → env.cancelled s.tick ≡ false
        → listen env topic fuel timeout (ticked s) ≡ (err unfinished, t)
        → Follows (suc n) retry quiet s [] t
    cancelled_then :
        (n retry : ℕ) (quiet : Bool) (failure : ListenError) (s t : Socket)
        → env.cancelled s.tick ≡ false
        → listen env topic fuel timeout (ticked s) ≡ (err (failed failure), t)
        → env.cancelled t.tick ≡ true
        → Follows (suc n) retry quiet s [] (ticked t)
    still_waiting :
        (n retry : ℕ) (quiet : Bool) (failure : ListenError) (s t r : Socket) (o : Outage)
        → env.cancelled s.tick ≡ false
        → listen env topic fuel timeout (ticked s) ≡ (err (failed failure), t)
        → env.cancelled t.tick ≡ false
        → IsOutage first_retry retry quiet failure.joined o
        → Waits env (env.now (suc (suc t.tick)) + o.pause) fuel false (ticked (ticked (ticked t))) r
        → Follows (suc n) retry quiet s (o ∷ []) r
    comes_back :
        (n retry : ℕ) (quiet : Bool) (failure : ListenError) (s t u r : Socket) (o : Outage)
        (rest : List Outage)
        → env.cancelled s.tick ≡ false
        → listen env topic fuel timeout (ticked s) ≡ (err (failed failure), t)
        → env.cancelled t.tick ≡ false
        → IsOutage first_retry retry quiet failure.joined o
        → Waits env (env.now (suc (suc t.tick)) + o.pause) fuel true (ticked (ticked (ticked t))) u
        → Follows n (min (o.retry * 2) max_retry) true u rest r
        → Follows (suc n) retry quiet s (o ∷ rest) r

module _ (env : Environment) (topic : Bytes) (timeout fuel first_retry : ℕ)
    (first_retry_≤ : first_retry ≤ max_retry) where
  abbrev Keeps : ℕ → (ℕ → Bool → Socket → List Outage × Socket) → Type 0
  Keeps n again =
      (retry : ℕ) (quiet : Bool) (s : Socket)
      → retry ≤ max_retry
      → let p = again retry quiet s in
        Follows env topic timeout fuel first_retry n retry quiet s p.0 p.1

  sleep_through-Follows :
      (n : ℕ) (again : ℕ → Bool → Socket → List Outage × Socket)
      → Keeps n again
      → (retry : ℕ) (quiet : Bool) (failure : ListenError) (s t : Socket) → retry ≤ max_retry
      → env.cancelled s.tick ≡ false
      → listen env topic fuel timeout (ticked s) ≡ (err (failed failure), t)
      → env.cancelled t.tick ≡ false
      → let p =
          sleep_through env topic timeout fuel first_retry again retry quiet failure (ticked t) in
        Follows env topic timeout fuel first_retry (suc n) retry quiet s p.0 p.1
  unfolding sleep_through sleep_unless
  sleep_through-Follows n again keeps retry quiet failure s t h clear e clear' =
      go (sleep_each env fuel deadline started) (sleep_each-Waits env fuel deadline started)
    where
      next : ℕ
      next = if failure.joined then first_retry else retry

      pause : ℕ
      pause = jittered (env.random (suc t.tick)) next

      deadline : ℕ
      deadline = env.now (suc (suc t.tick)) + pause

      started : Socket
      started = ticked (ticked (ticked t))

      o : Outage
      o = record {
        joined = failure.joined;
        warned = not (if failure.joined then false else quiet);
        retry = next;
        pause = pause;
      }

      next_≤ : (joined : Bool) → (if joined then first_retry else retry) ≤ max_retry
      next_≤ true = first_retry_≤
      next_≤ false = h

      outage : IsOutage first_retry retry quiet failure.joined o
      outage = record {
        same = refl;
        retries = refl;
        bounded = next_≤ failure.joined;
        warns = warned_lem failure.joined quiet;
        above = half_≤_jittered (env.random (suc t.tick)) next;
        below = jittered_≤ (env.random (suc t.tick)) next;
      }

      go :
          (p : Result (Unit {0}) Stop × Socket)
          → Waits env deadline fuel (is_done p.0) started p.1
          → let q = after_sleep env topic timeout fuel first_retry again o p in
            Follows env topic timeout fuel first_retry (suc n) retry quiet s q.0 q.1
      go (ok _, u) w =
          unfold after_sleep in
          comes_back n retry quiet failure s t u _ o _ clear e clear' outage w
            (keeps _ true u (min-le_right _ _))
      go (err _, u) w =
          unfold after_sleep in still_waiting n retry quiet failure s t u o clear e clear' outage w

  after_listen-Follows :
      (n : ℕ) (again : ℕ → Bool → Socket → List Outage × Socket)
      → Keeps n again
      → (retry : ℕ) (quiet : Bool) (p : Result (Unit {0}) Stop × Socket) (s : Socket)
      → retry ≤ max_retry
      → env.cancelled s.tick ≡ false
      → listen env topic fuel timeout (ticked s) ≡ p
      → let q = after_listen env topic timeout fuel first_retry again retry quiet p in
        Follows env topic timeout fuel first_retry (suc n) retry quiet s q.0 q.1
  unfolding after_listen
  after_listen-Follows n again keeps retry quiet (ok _, t) s h clear e =
      ended n retry quiet s t clear e
  after_listen-Follows n again keeps retry quiet (err unfinished, t) s h clear e =
      still_listening n retry quiet s t clear e
  after_listen-Follows n again keeps retry quiet (err (failed failure), t) s h clear e =
      elim (Bool-cases (env.cancelled t.tick)) [
        | inl c ↦ rw c (cancelled_then n retry quiet failure s t clear e c)
        | inr c ↦ rw c (sleep_through-Follows n again keeps retry quiet failure s t h clear e c)
      ]

  run_each-Follows :
      (rounds : ℕ) → Keeps rounds (run_each env topic timeout fuel first_retry rounds)
  unfolding run_each
  run_each-Follows zero retry quiet s h = spent retry quiet s
  run_each-Follows (suc rounds) retry quiet s h = elim (Bool-cases (env.cancelled s.tick)) [
    | inl c ↦ rw c (cancelled_first rounds retry quiet s c)
    | inr c ↦ rw c (
        after_listen-Follows rounds (run_each env topic timeout fuel first_retry rounds)
          (run_each-Follows rounds) retry quiet _ s h c refl)
  ]

-- However the server, the network and the clock behave, each round of the thread ends in one of these
-- ways: it is cancelled, its connection ends or is still open after as many looks at it as are
-- taken, or the connection fails. After a failure, unless it is cancelled, it draws a pause in the
-- second half of its retry and sleeps, 50 milliseconds or less at a time, until by the clock the
-- pause is over, until it is cancelled, or until as many looks at the clock as are taken are used
-- up; only in the first two cases does it go on, with the next round. The retry is the first one
-- for the outage of a channel that had been joined, doubles from one outage to the next else, and
-- never exceeds five minutes if the first one does not. An outage is logged as a warning exactly if
-- it is the first, or the channel had been joined since.
pub run-Follows :
    (env : Environment) (topic : Bytes) (timeout fuel first_retry : ℕ)
    → first_retry ≤ max_retry
    → (rounds : ℕ) (s : Socket)
    → let p = run env topic timeout fuel first_retry rounds s in
      Follows env topic timeout fuel first_retry rounds first_retry false s p.0 p.1
unfolding run
run-Follows env topic timeout fuel first_retry h rounds s =
    run_each-Follows env topic timeout fuel first_retry h rounds first_retry false s h

-- ===== src/Notices/Outages.antt =====
-- How the thread of agent/src/notices.rs comes back after an outage: `run`, `jittered` and
-- `sleep_unless`.
--
-- A thread that has not ended after the rounds that are looked at is left there.
use renga.Prelude.{
  ◌-◌, ◌++◌, ◌>>◌, modify, ℕ, zero, suc, ◌+◌, ◌*◌, ◌/◌, ◌%◌, ◌^◌, min, max, Bool, true, false, not,
  List, [], ◌∷◌, ltb, if◌then◌else◌, Result, ok, err, pure, raise, ◌>>=◌,
}
use renga.Bytes.{Bytes}
use renga.Notices.{
  Environment, ListenError, Stop, failed, unfinished, Socket, Action, ask, listen, max_retry,
}

-- One pass of the loop of `run` that ends in a failure; `warned` is whether it is logged as a warning.
pub record Outage : Type 0 where
  pub joined : Bool
  pub warned : Bool
  pub retry : ℕ
  pub pause : ℕ

abbrev pub millisecond : ℕ
millisecond = 1000000

-- `thread::sleep`
abbrev pub sleep : ℕ → Action Unit
sleep duration = modify (λ s. record s { slept = s.slept ++ duration ∷ [] })

unfoldable pub jittered : ℕ → ℕ → ℕ
jittered random interval =
    let half = interval / 2 in
    let spread = max (half / millisecond) 1 in half + random % spread % 2 ^ 64 * millisecond

module _ (env : Environment) where
  unfoldable pub sleep_each : ℕ → ℕ → Action Unit
  sleep_each zero deadline = raise unfinished
  sleep_each (suc fuel) deadline = do
    stop ← ask env.cancelled
    if stop then pure tt else (do
      now ← ask env.now
      if not (ltb now deadline)
          then pure tt
          else (do sleep (min (deadline - now) (50 * millisecond)); sleep_each fuel deadline))

  unfoldable pub sleep_unless : ℕ → ℕ → Action Unit
  sleep_unless fuel duration = do now ← ask env.now; sleep_each fuel (now + duration)

  module _ (topic : Bytes) (timeout fuel first_retry : ℕ) where
    -- `again` is the rest of the loop, from the retry and whether the outage is known already.
    unfoldable pub after_sleep :
        (ℕ → Bool → Socket → List Outage × Socket)
        → Outage
        → Result (Unit {0}) Stop × Socket
        → List Outage × Socket
    after_sleep again o (ok _, s) =
        let rest = again (min (o.retry * 2) max_retry) true s in (o ∷ rest.0, rest.1)
    after_sleep again o (err _, s) = (o ∷ [], s)

    unfoldable pub sleep_through :
        (ℕ → Bool → Socket → List Outage × Socket)
        → ℕ
        → Bool
        → ListenError
        → Socket
        → List Outage × Socket
    sleep_through again retry quiet failure s =
        let next = if failure.joined then first_retry else retry in
        let pause = jittered (env.random s.tick) next in
        let o : Outage = record {
          joined = failure.joined;
          warned = not (if failure.joined then false else quiet);
          retry = next;
          pause = pause;
        } in
        after_sleep again o (sleep_unless fuel pause (record s { tick = suc s.tick }))

    unfoldable pub after_listen :
        (ℕ → Bool → Socket → List Outage × Socket)
        → ℕ
        → Bool
        → Result (Unit {0}) Stop × Socket
        → List Outage × Socket
    after_listen again retry quiet (ok _, s) = ([], s)
    after_listen again retry quiet (err unfinished, s) = ([], s)
    after_listen again retry quiet (err (failed failure), s) =
        let t : Socket = record s { tick = suc s.tick } in
        if env.cancelled s.tick then ([], t) else sleep_through again retry quiet failure t

    unfoldable pub run_each : ℕ → ℕ → Bool → Socket → List Outage × Socket
    run_each zero retry quiet s = ([], s)
    run_each (suc rounds) retry quiet s =
        let t : Socket = record s { tick = suc s.tick } in
        if env.cancelled s.tick
        then ([], t)
        else after_listen (run_each rounds) retry quiet (listen env topic fuel timeout t)

    unfoldable pub run : ℕ → Socket → List Outage × Socket
    run rounds s = run_each rounds first_retry false s

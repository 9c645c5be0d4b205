-- ===== src/Transport/Retry.antt =====
-- The retries of a delivery: `retry_with_budget` of agent/src/transport.rs.
--
-- Each reading of the clock or of the cancellation is one tick, and the environment answers by the
-- tick; the operation answers by how often it was called. Times are nanoseconds.
pub mod Budget
use renga.Prelude.{
  ℕ, zero, suc, ◌+◌, ◌-◌, ◌*◌, min, max, Bool, true, false, ◌||◌, not, Option, none, some, List, [],
  ◌∷◌, ◌++◌, ltb, ◌==◌, if◌then◌else◌, Result, ok, err, Stateful, pure, raise, gets, ◌>>=◌, ◌>>◌,
  modify,
}
use renga.Transport.Failure.{TransportError, cancelled_error, is_transient}

-- The error that is returned, or the `unreachable!` after the loop.
pub data Stop : Type 0 where
  failed : TransportError → Stop
  panicked : Stop

-- `clock` is the last time read, `starts` what it was at each call of the operation, and `slept` the
-- slices that were slept.
pub record Attempts : Type 0 where
  pub tick : ℕ
  pub clock : ℕ
  pub calls : ℕ
  pub starts : List ℕ
  pub slept : List ℕ

abbrev pub Action : Type 0 → Type 0
Action = Stateful Attempts Stop

-- 25 milliseconds.
abbrev pub backoff_slice : ℕ
backoff_slice = 25 * 1000000

abbrev pub first_delay : ℕ
first_delay = 250 * 1000000

abbrev pub longest_delay : ℕ
longest_delay = 8 * 1000000000

module _ {A : Type 0} (now : ℕ → ℕ) (cancelled : ℕ → Bool)
    (operation : ℕ → Result A TransportError) where
  abbrev pub read_clock : Action ℕ
  read_clock s = (ok (now s.tick), record s { tick = suc s.tick; clock = now s.tick })

  abbrev pub look : Action Bool
  look s = (ok (cancelled s.tick), record s { tick = suc s.tick })

  abbrev pub call : Action (Result A TransportError)
  call s =
      (ok (operation s.calls), record s { calls = suc s.calls; starts = s.starts ++ s.clock ∷ [] })

  abbrev pub sleep : ℕ → Attempts → Attempts
  sleep slice s = record s { slept = s.slept ++ slice ∷ [] }

  -- The sleeping loop; each round takes something off `remaining`, so that as many rounds are enough.
  unfoldable pub wait_out : ℕ → ℕ → Action Unit
  wait_out zero remaining = pure tt
  wait_out (suc fuel) remaining = if remaining == 0 then pure tt else (do
    stopped ← look
    if stopped then raise (failed cancelled_error) else (do
      modify (sleep (min remaining backoff_slice))
      wait_out fuel (remaining - min remaining backoff_slice)))

  -- How long the server asked to wait.
  unfoldable pub asked_delay : TransportError → ℕ → ℕ
  asked_delay e at = elim e.retry_not_before [ none ↦ 0 | some deadline ↦ deadline - at ]

  module _ (request_timeout budget started : ℕ) where
    -- What follows a failed attempt, up to the next; `again` is the rest of the loop.
    unfoldable pub back_off : TransportError → ℕ → Action A → Action A
    unfolding wait_out asked_delay
    back_off e delay again = do
      at ← read_clock
      let pause = max delay (asked_delay e at)
      before ← read_clock
      if ltb budget ((before - started) + pause + request_timeout) then raise (failed e) else (do
        wait_out pause pause
        after ← read_clock
        if ltb budget ((after - started) + request_timeout) then raise (failed e) else again)

    unfoldable pub judge : ℕ → ℕ → Action A → Result A TransportError → Action A
    unfolding back_off
    judge left delay again (ok value) = pure value
    judge left delay again (err e) =
        if not (is_transient e) || e.moved || left == 0
        then raise (failed e)
        else back_off e delay again

    -- `attempt` of the source is `attempts` less the attempts left after this one.
    unfoldable pub attempt_each : ℕ → ℕ → Action A
    unfolding judge
    attempt_each zero delay = raise panicked
    attempt_each (suc left) delay = do
      stopped ← look
      if stopped then raise (failed cancelled_error) else (do
        result ← call
        judge left delay (attempt_each left (min (delay * 2) longest_delay)) result)

  unfoldable pub retry_with_budget : ℕ → ℕ → ℕ → Action A
  unfolding attempt_each
  retry_with_budget attempts request_timeout budget = do
    started ← read_clock
    attempt_each request_timeout budget started attempts first_delay

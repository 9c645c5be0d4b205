-- ===== src/Transport/Examples.antt =====
-- A delivery that fails twice and then succeeds, and how single answers are judged.
use renga.Prelude.{
  ℕ, ◌+◌, ◌-◌, ◌*◌, ◌≤◌, ◌≡◌, refl, Bool, false, none, some, [], if◌then◌else◌, ltb, All, Result,
  ok, err, arith, true, ◌∷◌, take,
}
use renga.Bytes.{Bytes, bytes_eq}
use renga.Transport.Failure.{
  TransportError, new_error, retry_later, transient, ErrorPath, status_error, failure_kind,
  is_transient, max_error_body,
}
use renga.Transport.Judged.{status_error_lem, is_rejected, blames_payload, passes}
use renga.Transport.Deadlines.{
  RetryClass, telemetry, same_class, Deadlines, check_retry_deadline, remember_retry_deadline,
  check-remember,
}
use renga.Transport.Retry.{Attempts, retry_with_budget}
use renga.Transport.Retry.Budget.{retry_with_budget-Bounded, retry_with_budget-Answered, Answered}

abbrev busy : TransportError
busy = record (new_error retry_later transient) { status = some 429; retry_not_before = some 5000 }

abbrev nothing_known : Deadlines
nothing_known _ = none

check-remember_example :
    ((later : ℕ) × (5000 ≤ later)
      × (check_retry_deadline
            (remember_retry_deadline {A = ℕ} nothing_known telemetry (err busy))
            telemetry
            4000
          ≡ err (record (new_error retry_later transient) {
            status = some 429;
            retry_not_before = some later;
          })))
    × ((other : RetryClass)
        → same_class telemetry other ≡ false
        → remember_retry_deadline {A = ℕ} nothing_known telemetry (err busy) other
          ≡ nothing_known other)
check-remember_example = check-remember ℕ nothing_known telemetry busy 5000 4000 refl (omega arith)

abbrev fresh : Attempts
fresh = record { tick = 0; clock = 0; calls = 0; starts = []; slept = [] }

abbrev clock : ℕ → ℕ
clock n = 1000000 * n

abbrev never : ℕ → Bool
never _ = false

abbrev third_time : ℕ → Result ℕ TransportError
third_time n = if ltb n 2 then err busy else ok 7

retry_with_budget-Bounded_example :
    All
      (λ t. (t - clock 0) + 1000000000 ≤ 20000000000)
      (retry_with_budget clock never third_time 3 1000000000 20000000000 fresh).1.starts
    × ((retry_with_budget clock never third_time 3 1000000000 20000000000 fresh).1.calls ≤ 3)
retry_with_budget-Bounded_example =
    retry_with_budget-Bounded clock never third_time 3 1000000000 20000000000 fresh refl refl
      (omega arith)

retry_with_budget-Answered_example :
    Answered clock never third_time
      (retry_with_budget clock never third_time 3 1000000000 20000000000 fresh)
retry_with_budget-Answered_example =
    retry_with_budget-Answered clock never third_time 3 1000000000 20000000000 fresh (omega arith)

-- "moved" stands for the body of the answer.
abbrev body : Bytes
body = b'm' ∷ b'o' ∷ b'v' ∷ b'e' ∷ b'd' ∷ []

abbrev nothing_reused : Bytes → ErrorPath → Bool
nothing_reused _ _ = false

abbrev gone : TransportError
unfolding status_error failure_kind
gone = status_error (bytes_eq body) nothing_reused 410 body none

gone-moved : gone.moved ≡ true
unfolding gone status_error failure_kind bytes_eq
gone-moved = refl

status_error_lem_example :
    (is_rejected gone.kind ≡ blames_payload nothing_reused 410 (take max_error_body body))
    × (is_transient gone ≡ passes (bytes_eq body) 410 (take max_error_body body))
    × (gone.moved ≡ true → is_transient gone ≡ true)
    × (gone.collector_kind_conflict ≡ true → is_transient gone ≡ false)
unfolding gone status_error
status_error_lem_example = status_error_lem (bytes_eq body) nothing_reused 410 body none gone refl

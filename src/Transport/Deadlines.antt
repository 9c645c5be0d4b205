-- ===== src/Transport/Deadlines.antt =====
-- The retry deadlines that agent/src/transport.rs remembers for each class of requests.
use renga.Prelude.{
  ℕ, max, ◌≡◌, ◌≤◌, ◌<◌, refl, Bool, true, false, Option, none, some, ltb, if◌then◌else◌, Result,
  ok, err, arith,
}
use mathlib.Core.List.{[], ◌∷◌}
use renga.Bytes.{Bytes, bytes_eq, strip_suffix}
use renga.Transport.Failure.{TransportError, new_error, retry_later, transient}

pub data RetryClass : Type 0 where
  observations telemetry checkins leases claims reports : RetryClass

abbrev pub same_class : RetryClass → RetryClass → Bool
same_class observations observations = true
same_class telemetry telemetry = true
same_class checkins checkins = true
same_class leases leases = true
same_class claims claims = true
same_class reports reports = true
same_class _ _ = false

-- The paths of the requests, and the end of a claim's.
abbrev observation_path : Bytes
observation_path =
    b'/' ∷ b'a' ∷ b'p' ∷ b'i' ∷ b'/' ∷ b'v' ∷ b'1' ∷ b'/' ∷ b'o' ∷ b'b' ∷ b's' ∷ b'e' ∷ b'r' ∷ b'v'
    ∷ b'a' ∷ b't' ∷ b'i' ∷ b'o' ∷ b'n' ∷ b's' ∷ []

abbrev telemetry_path : Bytes
telemetry_path =
    b'/' ∷ b'a' ∷ b'p' ∷ b'i' ∷ b'/' ∷ b'v' ∷ b'1' ∷ b'/' ∷ b't' ∷ b'e' ∷ b'l' ∷ b'e' ∷ b'm' ∷ b'e'
    ∷ b't' ∷ b'r' ∷ b'y' ∷ []

abbrev checkin_path : Bytes
checkin_path =
    b'/' ∷ b'a' ∷ b'p' ∷ b'i' ∷ b'/' ∷ b'v' ∷ b'1' ∷ b'/' ∷ b'a' ∷ b'g' ∷ b'e' ∷ b'n' ∷ b't' ∷ b'/'
    ∷ b'c' ∷ b'h' ∷ b'e' ∷ b'c' ∷ b'k' ∷ b'i' ∷ b'n' ∷ b's' ∷ []

abbrev job_lease_path : Bytes
job_lease_path =
    b'/' ∷ b'a' ∷ b'p' ∷ b'i' ∷ b'/' ∷ b'v' ∷ b'1' ∷ b'/' ∷ b'a' ∷ b'g' ∷ b'e' ∷ b'n' ∷ b't' ∷ b'/'
    ∷ b'j' ∷ b'o' ∷ b'b' ∷ b's' ∷ b'/' ∷ b'l' ∷ b'e' ∷ b'a' ∷ b's' ∷ b'e' ∷ []

abbrev claims_suffix : Bytes
claims_suffix = b'/' ∷ b'c' ∷ b'l' ∷ b'a' ∷ b'i' ∷ b'm' ∷ b's' ∷ []

abbrev ends_with : Bytes → Bytes → Bool
ends_with suffix path = elim (strip_suffix suffix path) [ none ↦ false | some _ ↦ true ]

unfoldable pub retry_class : Bytes → RetryClass
retry_class path =
    if bytes_eq path observation_path
    then observations
    else if bytes_eq path telemetry_path
    then telemetry
    else if bytes_eq path checkin_path
    then checkins
    else if bytes_eq path job_lease_path
    then leases
    else if ends_with claims_suffix path
    then claims
    else reports

abbrev pub Deadlines : Type 0
Deadlines = RetryClass → Option ℕ

unfoldable pub check_retry_deadline : Deadlines → RetryClass → ℕ → Result (Unit {0}) TransportError
check_retry_deadline deadlines class now = elim (deadlines class) [
  | none ↦ ok tt
  | some deadline ↦
      if ltb now deadline
      then err (record (new_error retry_later transient) {
        status = some 429;
        retry_not_before = some deadline;
      })
      else ok tt
]

-- The later of the deadline that was known and the new one.
abbrev pub latest : Option ℕ → ℕ → ℕ
latest none deadline = deadline
latest (some existing) deadline = max existing deadline

abbrev pub set : RetryClass → ℕ → Deadlines → Deadlines
set class deadline deadlines c =
    if same_class class c then some (latest (deadlines c) deadline) else deadlines c

remember_error : Deadlines → RetryClass → TransportError → Deadlines
remember_error deadlines class e = elim e.retry_not_before [
  | none ↦ deadlines
  | some deadline ↦ set class deadline deadlines
]

unfoldable pub remember_retry_deadline :
    {A : Type 0} → Deadlines → RetryClass → Result A TransportError → Deadlines
unfolding remember_error
remember_retry_deadline deadlines class (ok _) = deadlines
remember_retry_deadline deadlines class (err e) = remember_error deadlines class e

same_class_refl : (c : RetryClass) → same_class c c ≡ true
same_class_refl observations = refl
same_class_refl telemetry = refl
same_class_refl checkins = refl
same_class_refl leases = refl
same_class_refl claims = refl
same_class_refl reports = refl

latest-bound : (o : Option ℕ) (d : ℕ) → d ≤ latest o d
latest-bound none d = omega arith
latest-bound (some e) d = omega arith

-- After an error that asks to retry no earlier than `d`, a request of the same class before `d` is
-- refused without being sent, with a deadline that is no earlier; and what is known of every other
-- class is as before.
pub check-remember :
    (A : Type 0) (deadlines : Deadlines) (class : RetryClass) (e : TransportError) (d now : ℕ)
    → e.retry_not_before ≡ some d
    → now < d
    → ((later : ℕ) × (d ≤ later)
        × (check_retry_deadline (remember_retry_deadline {A = A} deadlines class (err e)) class now
            ≡ err (record (new_error retry_later transient) {
              status = some 429;
              retry_not_before = some later;
            })))
      × ((other : RetryClass)
          → same_class class other ≡ false
          → remember_retry_deadline {A = A} deadlines class (err e) other ≡ deadlines other)
unfolding check_retry_deadline remember_retry_deadline remember_error
check-remember A deadlines class e d now h k =
    let bound = latest-bound (deadlines class) d in
    (
      (latest (deadlines class) d, bound, ground (arith, h, k, bound, same_class_refl class)),
      λ other n. ground (arith, h, n),
    )

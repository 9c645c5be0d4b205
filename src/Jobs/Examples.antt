-- ===== src/Jobs/Examples.antt =====
-- A job that succeeds, one that was recorded before, and what the theorems say of them.
use renga.Prelude.{
  ℕ, zero, suc, ◌*◌, ◌^◌, ◌≤◌, ◌<◌, ◌≡◌, refl, inl, inr, true, false, none, some, List, [], ◌∷◌,
  ◌++◌, length, any, All, ◌==◌, if◌then◌else◌, ok, err, arith,
}
use renga.Bytes.{
  Bytes, bytes_eq, padded, fixed, count_digits, split_once, parse_u64, parse_digits, split,
}
use renga.Jobs.Record.{
  idempotent, Outcome, succeeded, result_of, JobRecord, JobRecords, written, is_job, is_retained,
  get, new_record, start, finish, confirm, full, remove_expired, persist, saved, shrink, make_place,
  update, parsed,
}
use renga.Jobs.Record.Kept.{unresolved_kept, Remembered}
use renga.Jobs.Record.Recorded.{finish_recorded, start_full}
use renga.Jobs.Catalog.{
  Capability, CapabilityKey, observe, JobPolicy, show_key, parse_key, valid_name, enabled,
  enabled_keys, key, valid_segment, parse_u32, allows, enabled_by_default,
}
use renga.Jobs.Catalog.Keys.{parse_key_sound}
use renga.Jobs.Catalog.Policy.{enabled-enabled_keys, is_some}
use renga.Jobs.Reporter.{LeasedJob, Environment, Worker, Event, acknowledged, completed, nothing}
use renga.Jobs.Supervision.{supervise}
use renga.Jobs.Supervision.Deadline.{supervise-Timely, supervise-finished, Timely, finished}
use renga.Jobs.Worker.{handle, run_pass}
use renga.Jobs.Worker.Numbering.{handle-reports, numbers, up_to, ends_when_withdrawn}
use renga.Jobs.Worker.Once.{handle-runs_once, launches}
use renga.Jobs.Worker.Launching.{Recorded}
use renga.Jobs.Worker.Pass.{run_pass-Recorded}

-- "a.b"
abbrev name : Bytes
name = b'a' ∷ b'.' ∷ b'b' ∷ []

abbrev collect : Capability
collect = record {
  name = name;
  version = 1;
  risk_class = observe;
  retry_class = idempotent;
  timeout = 5000;
  overridden_default = none;
}

abbrev no_choice : JobPolicy
no_choice = record { enabled = none }

abbrev job : LeasedJob
job = record {
  id = 7;
  capability = b'a' ∷ b'.' ∷ b'b' ∷ b'@' ∷ b'1' ∷ [];
  parameters = [];
  attempt = 1;
  lease_token = [];
  lease_expires_at = 60000;
  timeout_ms = 5000;
  output_limit_bytes = 1000;
}

-- The clock runs a second at each reading; the capability has its result at the start.
abbrev quick : Environment
quick = record {
  now = λ n. 1000 * n;
  date = λ n. 1000 * n;
  current = λ _. true;
  stopped = λ _. false;
  reply = λ _. acknowledged false;
  received = λ _. completed 0 (ok (b'1' ∷ []));
  write = λ _. written;
  load = λ _. parsed [];
  lease = λ _. some [];
}

-- The capability never has a result.
abbrev silent : Environment
silent = record quick { received = λ _. nothing }

abbrev unresolved : ℕ → JobRecord
unresolved id = new_record id name idempotent 1000

abbrev two : JobRecords
two = record { records = unresolved 1 ∷ unresolved 7 ∷ []; disk = unresolved 1 ∷ unresolved 7 ∷ [] }

abbrev outcome : Outcome
outcome = record { kind = succeeded; payload = result_of (b'1' ∷ []) }

abbrev worker : JobRecords → Worker
worker records = record {
  tick = 0;
  records = records;
  reporter = record { job_id = 0; lease_token = []; sequence = 0; lease_deadline = 0; lost = true };
  cancelled = false;
  events = [];
}

get-two : get 1 two ≡ some (unresolved 1)
unfolding get
get-two = refl

unresolved_kept_example :
    Remembered 1 7 (unresolved 1) 2000 written two (start 7 name idempotent 2000 written two)
    × Remembered 1 7 (unresolved 1) 2000 written two (finish 7 outcome 2000 written two)
    × Remembered 1 7 (unresolved 1) 2000 written two (confirm 7 2000 written two)
unresolved_kept_example =
    unresolved_kept 1 7 (unresolved 1) 2000 written two name idempotent outcome refl refl refl refl
      get-two

abbrev restarted : JobRecords
restarted = record {
  records = unresolved 1 ∷ new_record 7 name idempotent 2000 ∷ [];
  disk = unresolved 1 ∷ new_record 7 name idempotent 2000 ∷ [];
}

start-two : start 7 name idempotent 2000 written two ≡ (ok tt, restarted)
unfolding start persist saved shrink make_place remove_expired
start-two = refl

abbrev ended : JobRecords
ended = record {
  records = unresolved 1 ∷ record (unresolved 7) { outcome = some outcome; confirmed = false } ∷ [];
  disk = unresolved 1 ∷ record (unresolved 7) { outcome = some outcome; confirmed = false } ∷ [];
}

finish-two : finish 7 outcome 2000 written two ≡ (ok tt, ended)
unfolding finish persist saved shrink remove_expired update
finish-two = refl

get-two_other : get 7 two ≡ some (unresolved 7)
unfolding get
get-two_other = refl

finish_recorded_example :
    (get 7 ended ≡ some (record (unresolved 7) { outcome = some outcome; confirmed = false }))
    × (ended.disk ≡ ended.records)
    × (length ended.records ≤ 128)
finish_recorded_example =
    finish_recorded 7 outcome 2000 written (unresolved 7) two ended get-two_other refl finish-two

many : ℕ → List JobRecord
many zero = []
many (suc n) = unresolved 1 ∷ many n

length-many : (n : ℕ) → length (many n) ≡ n
unfolding many
length-many zero = refl
length-many (suc n) = omega (arith, length-many n)

any-many : (n : ℕ) → any (is_job 7) (many n) ≡ false
unfolding many
any-many zero = refl
any-many (suc n) = any-many n

unconfirmed-many : (n : ℕ) → All (λ r. r.confirmed ≡ false) (many n)
unfolding many
unconfirmed-many zero = tt
unconfirmed-many (suc n) = (refl, unconfirmed-many n)

retained-many : (n : ℕ) → All (λ r. is_retained 2000 r ≡ true) (many n)
unfolding many
retained-many zero = tt
retained-many (suc n) = (refl, retained-many n)

abbrev crowd : JobRecords
crowd = record { records = many 128; disk = many 128 }

start_full_example : start 7 name idempotent 2000 written crowd ≡ (err full, crowd)
start_full_example =
    start_full 7 name idempotent 2000 written crowd (omega (arith, length-many 128)) (any-many 128)
      (unconfirmed-many 128) (retained-many 128)

abbrev collect_key : CapabilityKey
collect_key = record { name = name; version = 1 }

parse-collect : parse_key (b'a' ∷ b'.' ∷ b'b' ∷ b'@' ∷ b'1' ∷ []) ≡ some collect_key
unfolding parse_key parse_u32 split_once parse_u64 parse_digits valid_name split valid_segment
    padded fixed count_digits bytes_eq
parse-collect = refl

valid-name : valid_name name ≡ true
unfolding valid_name split valid_segment
valid-name = refl

parse_key_sound_example :
    (show_key collect_key ≡ b'a' ∷ b'.' ∷ b'b' ∷ b'@' ∷ b'1' ∷ [])
    × (valid_name name ≡ true)
    × (0 < 1)
    × (1 < 2 ^ 32)
parse_key_sound_example =
    parse_key_sound (b'a' ∷ b'.' ∷ b'b' ∷ b'@' ∷ b'1' ∷ []) collect_key parse-collect

enabled-enabled_keys_example :
    is_some (enabled (collect ∷ []) job.capability no_choice)
    ≡ any (λ a. bytes_eq a job.capability) (enabled_keys (collect ∷ []) no_choice)
enabled-enabled_keys_example = enabled-enabled_keys (collect ∷ []) job.capability no_choice

handle-reports_example :
    (new : List Event) × (n : ℕ) × ((handle quick 3
        (collect ∷ [])
        no_choice
        job
        (worker two)).1.events
      ≡ [] ++ new)
    × (numbers new ≡ up_to n)
    × (ends_when_withdrawn new ≡ true)
handle-reports_example = handle-reports quick 3 (collect ∷ []) no_choice job (worker two)

enabled-collect : enabled (collect ∷ []) job.capability no_choice ≡ some collect
unfolding enabled key bytes_eq padded fixed count_digits allows enabled_by_default
enabled-collect = refl

get-ended : get 7 ended ≡ some (record (unresolved 7) { outcome = some outcome; confirmed = false })
unfolding get
get-ended = refl

handle-runs_once_example :
    launches (handle quick 3 (collect ∷ []) no_choice job (worker ended)).1.events ≡ 0
handle-runs_once_example = handle-runs_once quick 3 (collect ∷ []) no_choice job (worker ended) (
    inr (
      collect,
      record (unresolved 7) { outcome = some outcome; confirmed = false },
      enabled-collect,
      get-ended,
      inl (outcome, refl),
    ))

-- The server hands out one job, in the first round.
abbrev one_job : Environment
one_job = record quick { lease = λ n. if n == 4 then some (job ∷ []) else some [] }

run_pass-Recorded_example : Recorded (run_pass one_job 3 (collect ∷ []) no_choice (worker two)).1
run_pass-Recorded_example = run_pass-Recorded one_job 3 (collect ∷ []) no_choice (worker two) tt

supervise-Timely_example :
    Timely quick 5000 5000 (supervise quick 5000 5000 3 20000 false (worker two)).0
supervise-Timely_example = supervise-Timely quick 5000 5000 3 20000 false (worker two)

supervise-finished_example :
    finished silent 5000 5000 (supervise silent 5000 5000 6 20000 false (worker two)).0 ≡ true
supervise-finished_example =
    supervise-finished silent 5000 5000 5 6 20000 false (worker two) (λ n h. omega (arith, h))
      (omega arith) (omega arith)

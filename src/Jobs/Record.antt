-- ===== src/Jobs/Record.antt =====
-- The durable record of started jobs: agent/src/jobs/record.rs.
--
-- A UUID is a number, and times are milliseconds since the Unix epoch. `disk`
-- is what `jobs.json` holds. How a write of that file ends is an argument, `Write`.
pub mod Kept
pub mod Recorded
use renga.Prelude.{
  ℕ, suc, zero, ◌+◌, ◌*◌, Bool, true, false, ◌&&◌, not, Option, none, some, List, [], ◌∷◌, ◌++◌,
  ltb, leb, ◌==◌, if◌then◌else◌, length, filter, find, any, Result, ok, err,
}
use renga.Bytes.{Bytes}

pub data RetryClass : Type 0 where
  idempotent convergent imperative : RetryClass

pub data ReportType : Type 0 where
  started progress output succeeded failed cancelled : ReportType

-- Why a job failed, as the report says it: the worker's own sentences, or the capability's.
pub data Reason : Type 0 where
  not_enabled partly_run cannot_record stopped_unexpectedly : Reason
  timed_out : ℕ → Reason
  told : Bytes → Reason

pub data Payload : Type 0 where
  empty_object : Payload
  failure : Reason → Payload
  result_of : Bytes → Payload

pub record Outcome : Type 0 where
  pub kind : ReportType
  pub payload : Payload

pub record JobRecord : Type 0 where
  pub job_id : ℕ
  pub capability : Bytes
  pub retry_class : RetryClass
  pub started_at : ℕ
  pub outcome : Option Outcome
  pub confirmed : Bool

pub record JobRecords : Type 0 where
  pub records : List JobRecord
  pub disk : List JobRecord

abbrev pub max_records : ℕ
max_records = 128

-- Eight days.
abbrev pub retention : ℕ
retention = 8 * 24 * 60 * 60 * 1000

pub data RecordError : Type 0 where
  full cannot_read cannot_write never_started no_outcome : RecordError

-- The new file was persisted; or not; or it replaced the old one and only the sync of its directory
-- failed.
pub data Write : Type 0 where
  written unwritten unsynced : Write

abbrev pub is_job : ℕ → JobRecord → Bool
is_job id r = r.job_id == id

-- `signed_duration_since` of a later start is negative, and so below the retention.
abbrev pub is_retained : ℕ → JobRecord → Bool
is_retained now r = ltb now (r.started_at + retention)

unfoldable pub get : ℕ → JobRecords → Option JobRecord
get id s = find (is_job id) s.records

unfoldable pub remove_expired : ℕ → List JobRecord → List JobRecord
remove_expired now rs = filter (is_retained now) rs

-- `position` of the first confirmed record and its removal.
unfoldable pub evict : List JobRecord → Option (List JobRecord)
evict [] = none
evict (r ∷ rs) =
    if r.confirmed then some rs else elim (evict rs) [ none ↦ none | some xs ↦ some (r ∷ xs) ]

-- The loop of `persist` that makes the records fit, with whether it succeeded; each round takes one
-- record away, so that as many rounds as there are records are enough.
unfoldable pub shrink : ℕ → List JobRecord → Bool × List JobRecord
shrink zero rs = (true, rs)
shrink (suc fuel) rs =
    if ltb max_records (length rs)
    then elim (evict rs) [ none ↦ (false, rs) | some xs ↦ shrink fuel xs ]
    else (true, rs)

unfoldable pub saved :
    Write → List JobRecord → JobRecords → Result (Unit {0}) RecordError × JobRecords
saved written rs s = (ok tt, record { records = rs; disk = rs })
saved unwritten rs s = (err cannot_write, record { records = rs; disk = s.disk })
saved unsynced rs s = (err cannot_write, record { records = rs; disk = rs })

unfoldable pub persist : ℕ → Write → JobRecords → Result (Unit {0}) RecordError × JobRecords
unfolding saved remove_expired shrink
persist now w s =
    let kept = remove_expired now s.records in
    let (fits, rs) = shrink (length kept) kept in
    if fits then saved w rs s else (err full, record { records = rs; disk = s.disk })

abbrev pub new_record : ℕ → Bytes → RetryClass → ℕ → JobRecord
new_record id capability class now = record {
  job_id = id;
  capability = capability;
  retry_class = class;
  started_at = now;
  outcome = none;
  confirmed = false;
}

-- The records with room for one more, unless they are full of unresolved jobs.
unfoldable pub make_place : ℕ → List JobRecord → Option (List JobRecord)
make_place id rs =
    if not (any (is_job id) rs) && leb max_records (length rs) then evict rs else some rs

unfoldable pub start :
    ℕ → Bytes → RetryClass → ℕ → Write → JobRecords → Result (Unit {0}) RecordError × JobRecords
unfolding persist make_place
start id capability class now w s =
    let kept = remove_expired now s.records in
    elim (make_place id kept) [
      | none ↦ (err full, record s { records = kept })
      | some rs ↦ persist now w (record s {
        records = filter (λ r. not (is_job id r)) rs ++ new_record id capability class now ∷ [];
      })
    ]

-- The first record of the job changed by `f`.
unfoldable pub update : ℕ → (JobRecord → JobRecord) → List JobRecord → List JobRecord
update id f [] = []
update id f (r ∷ rs) = if is_job id r then f r ∷ rs else r ∷ update id f rs

unfoldable pub finish :
    ℕ → Outcome → ℕ → Write → JobRecords → Result (Unit {0}) RecordError × JobRecords
unfolding persist
finish id outcome now w s = elim (find (is_job id) s.records) [
  | none ↦ (err never_started, s)
  | some _ ↦ persist now w (record s {
    records = update id (λ r. record r { outcome = some outcome; confirmed = false }) s.records;
  })
]

unfoldable pub confirm_found :
    Option Outcome → ℕ → ℕ → Write → JobRecords → Result (Unit {0}) RecordError × JobRecords
confirm_found none id now w s = (err no_outcome, s)
confirm_found (some _) id now w s =
    persist now w (record s { records = update id (λ r. record r { confirmed = true }) s.records })

unfoldable pub confirm : ℕ → ℕ → Write → JobRecords → Result (Unit {0}) RecordError × JobRecords
unfolding persist confirm_found
confirm id now w s = elim (find (is_job id) s.records) [
  | none ↦ (err never_started, s)
  | some r ↦ confirm_found r.outcome id now w s
]

-- What reading `jobs.json` answers; a file that does not parse counts as empty.
pub data Load : Type 0 where
  parsed : List JobRecord → Load
  unparsable absent unreadable : Load

unfoldable pub open_records : Load → Result JobRecords RecordError
open_records (parsed rs) = ok (record { records = rs; disk = rs })
open_records unparsable = ok (record { records = []; disk = [] })
open_records absent = ok (record { records = []; disk = [] })
open_records unreadable = err cannot_read

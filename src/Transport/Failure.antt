-- ===== src/Transport/Failure.antt =====
-- Errors of agent/src/transport.rs and how an answer of the server is judged.
--
-- A status is its number, a time a number of nanoseconds. What `serde_json` finds in a body is given
-- by two functions: `says_moved` for an `error` of "moved", `rejects` for an `errors` entry with a
-- path. `date_delay` is `chrono`'s reading of a date, as the delay from now.
use renga.Prelude.{
  ℕ, suc, ◌+◌, ◌*◌, Bool, true, false, ◌&&◌, ◌||◌, Option, none, some, ltb, leb, ◌==◌,
  if◌then◌else◌, length, take, Result, ok, err,
}
use renga.Bytes.{Bytes, parse_u64}

pub data FailureKind : Type 0 where
  transient payload_rejected permanent : FailureKind

pub data Message : Type 0 where
  delivery_cancelled retry_later response_too_long cannot_read no_receipt : Message
  server_returned : ℕ → Bytes → Message

pub record TransportError : Type 0 where
  pub message : Message
  pub kind : FailureKind
  pub status : Option ℕ
  pub retry_not_before : Option ℕ
  pub moved : Bool
  pub collector_kind_conflict : Bool

abbrev pub new_error : Message → FailureKind → TransportError
new_error message kind = record {
  message = message;
  kind = kind;
  status = none;
  retry_not_before = none;
  moved = false;
  collector_kind_conflict = false;
}

unfoldable pub cancelled_error : TransportError
cancelled_error = new_error delivery_cancelled permanent

abbrev pub is_transient : TransportError → Bool
is_transient e = elim e.kind [ transient ↦ true | _ ↦ false ]

unfoldable pub is_cancelled : TransportError → Bool
is_cancelled e = elim e.message [ delivery_cancelled ↦ true | _ ↦ false ]

-- So many bytes of an error's body are read.
abbrev pub max_error_body : ℕ
max_error_body = 512

-- The paths in a body that make a conflict one about the payload, or about the collector.
pub data ErrorPath : Type 0 where
  observation_id replay_id collector_kind : ErrorPath

module _ (says_moved : Bytes → Bool) (rejects : Bytes → ErrorPath → Bool) where
  abbrev pub is_moved : ℕ → Bytes → Bool
  is_moved status excerpt = status == 410 && says_moved excerpt

  -- The arms of the `match`, in their order.
  unfoldable pub failure_kind : ℕ → Bytes → FailureKind
  failure_kind status excerpt =
      if status == 408 || status == 429
      then transient
      else if is_moved status excerpt
      then transient
      else if leb 500 status && ltb status 600
      then transient
      else if status == 400 || status == 413 || status == 422
      then payload_rejected
      else if status == 409 && (rejects excerpt observation_id || rejects excerpt replay_id)
      then payload_rejected
      else permanent

  unfoldable pub status_error : ℕ → Bytes → Option ℕ → TransportError
  unfolding failure_kind
  status_error status body retry_not_before =
      let excerpt = take max_error_body body in
      record (new_error (server_returned status excerpt) (failure_kind status excerpt)) {
        status = some status;
        retry_not_before = retry_not_before;
        moved = is_moved status excerpt;
        collector_kind_conflict = status == 409 && rejects excerpt collector_kind;
      }

module _ (date_delay : Bytes → Option ℕ) (last_instant : ℕ) where
  -- `checked_add`: no instant after the last one.
  abbrev pub checked_add : ℕ → ℕ → Option ℕ
  checked_add now delay = if leb (now + delay) last_instant then some (now + delay) else none

  unfoldable pub retry_after : Bytes → ℕ → Option ℕ
  retry_after value now = elim (parse_u64 value) [
    | some seconds ↦ checked_add now (seconds * 1000000000)
    | none ↦ elim (date_delay value) [ none ↦ none | some delay ↦ checked_add now delay ]
  ]

-- `body` is what the reader has, or `none` if it fails within the first `limit + 1` bytes.
unfoldable pub read_bounded : Option Bytes → ℕ → Result Bytes TransportError
read_bounded none limit = err (new_error cannot_read transient)
read_bounded (some body) limit =
    let bytes = take (suc limit) body in
    if ltb limit (length bytes) then err (new_error response_too_long permanent) else ok bytes

-- ===== src/Transport/Judged.antt =====
-- Which answers of the server let a payload be dropped: `status_error` of agent/src/transport.rs.
use renga.Prelude.{
  take-long, take-short, ℕ, suc, ok, err, ◌≡◌, ◌≤◌, ◌<◌, Bool, true, false, ◌&&◌, ◌||◌, Option,
  some, ltb, leb, ◌==◌, length, take, arith,
}
use renga.Bytes.{Bytes}
use renga.Transport.Failure.{
  ErrorPath, observation_id, replay_id, FailureKind, payload_rejected, permanent, failure_kind,
  read_bounded, new_error, response_too_long, status_error, max_error_body, TransportError,
  is_transient,
}

-- The statuses that are about the payload itself.
abbrev pub blames_payload : (Bytes → ErrorPath → Bool) → ℕ → Bytes → Bool
blames_payload rejects status excerpt =
    (status == 400 || status == 413 || status == 422)
    || (status == 409 && (rejects excerpt observation_id || rejects excerpt replay_id))

-- The statuses that a later attempt may turn into another.
abbrev pub passes : (Bytes → Bool) → ℕ → Bytes → Bool
passes says_moved status excerpt =
    (status == 408 || status == 429)
    || (leb 500 status && ltb status 600)
    || (status == 410 && says_moved excerpt)

abbrev pub is_rejected : FailureKind → Bool
is_rejected payload_rejected = true
is_rejected _ = false

-- Whatever the server answers: its error rejects the payload exactly if the status is 400, 413 or 422,
-- or 409 about a reused id; it is transient exactly if the status is 408, 429 or from 500 to 599, or
-- a 410 that says the organization moved; so an error that is about the move is transient, and one
-- about the collector is not.
pub status_error_lem :
    (says_moved : Bytes → Bool) (rejects : Bytes → ErrorPath → Bool) (status : ℕ) (body : Bytes)
    (deadline : Option ℕ) (e : TransportError)
    → status_error says_moved rejects status body deadline ≡ e
    → (is_rejected e.kind ≡ blames_payload rejects status (take max_error_body body))
      × (is_transient e ≡ passes says_moved status (take max_error_body body))
      × (e.moved ≡ true → is_transient e ≡ true)
      × (e.collector_kind_conflict ≡ true → is_transient e ≡ false)
unfolding status_error failure_kind
status_error_lem says_moved rejects status body deadline e h = ground (arith, h)

-- A response is read whole if it is within the limit, and one that is longer is a permanent error:
-- no response is cut short, although at most one byte past the limit is read.
read_bounded_lem :
    (body : Bytes) (limit : ℕ)
    → (length body ≤ limit → read_bounded (some body) limit ≡ ok body)
      × (limit < length body
          → read_bounded (some body) limit ≡ err (new_error response_too_long permanent))
unfolding read_bounded
read_bounded_lem body limit = (
  λ h.
      let whole : take (suc limit) body ≡ body = take-short (suc limit) body (omega arith) in
      ground (arith, whole, h),
  λ h.
      let long : length (take (suc limit) body) ≡ suc limit = take-long (suc limit) body h in
      ground (arith, long),
)

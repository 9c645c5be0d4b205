-- ===== src/Transport/Receipt.antt =====
-- The durable receipt of an observation: `validate_observation_receipt` of agent/src/transport.rs, and
-- `ObservationAccepted` of agent/src/payload.rs.
--
-- `read_accepted` and `read_submitted` are what `serde_json` and `chrono` find in a body. Times are in
-- nanoseconds since 1970; UUIDs are numbers.
pub mod Bound
mod Examples
use renga.Prelude.{
  ℕ, ◌*◌, ◌/◌, Bool, true, false, ◌&&◌, ◌||◌, not, Option, none, some, ◌==◌, if◌then◌else◌, Result,
  ok, err, chain, ok_or,
}
use renga.Bytes.{Bytes, bytes_eq}
use renga.Bytes.Literals.{codes}
use renga.Transport.Failure.{TransportError, new_error, no_receipt, permanent}

pub data ProcessingStatus : Type 0 where
  pending succeeded quarantined : ProcessingStatus

pub record AcceptedObservation : Type 0 where
  pub id : ℕ
  pub observation_id : Bytes
  pub source_id : ℕ
  pub observed_at : ℕ

pub record ObservationReceipt : Type 0 where
  pub id : ℕ
  pub position : ℕ
  pub accepted_at : ℕ

pub record ObservationAccepted : Type 0 where
  pub status : Bytes
  pub duplicate : Bool
  pub observation : AcceptedObservation
  pub receipt : ObservationReceipt
  pub processing : ProcessingStatus

-- What is read of the body that was sent; `names_source` is a source id that is not null.
pub record Submitted : Type 0 where
  pub observed_at : Option ℕ
  pub observation_id : Option Bytes
  pub names_source : Bool

abbrev pub timestamp_millis : ℕ → ℕ
timestamp_millis nanos = nanos / 1000000

abbrev pub invalid : TransportError
invalid = new_error no_receipt permanent

-- A first acceptance is 202, and a repeated one 200.
unfoldable pub is_acceptance : ℕ → Bool → Bool
is_acceptance status duplicate = (status == 202 && not duplicate) || (status == 200 && duplicate)

abbrev pub is_id : Option Bytes → Bytes → Bool
is_id none id = false
is_id (some s) id = bytes_eq s id

unfoldable pub mismatched : ℕ → ObservationAccepted → Submitted → ℕ → Bool
mismatched status accepted submitted observed_at =
    not (bytes_eq accepted.status (codes "accepted"))
    || not (is_acceptance status accepted.duplicate)
    || (accepted.receipt.position == 0)
    || not (is_id submitted.observation_id accepted.observation.observation_id)
    || not (timestamp_millis observed_at == timestamp_millis accepted.observation.observed_at)
    || submitted.names_source

module _ (read_accepted : Bytes → Option ObservationAccepted)
    (read_submitted : Bytes → Option Submitted) where
  unfoldable pub validate_observation_receipt : ℕ → Bytes → Bytes → Result (Unit {0}) TransportError
  validate_observation_receipt status submitted response =
      chain (ok_or (read_accepted response) invalid) λ accepted.
        chain (ok_or (read_submitted submitted) invalid) λ sent.
          chain (ok_or sent.observed_at invalid) λ observed_at.
            if mismatched status accepted sent observed_at then err invalid else ok tt

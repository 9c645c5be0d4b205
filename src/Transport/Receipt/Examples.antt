-- ===== src/Transport/Receipt/Examples.antt =====
-- A receipt of an observation, a second one of the same, and one of another.
use renga.Prelude.{◌≡◌, refl, false, Option, some, ok, err, ◌⊎◌}
use renga.Bytes.{Bytes, bytes_eq}
use renga.Bytes.Literals.{codes}
use renga.Transport.Failure.{TransportError}
use renga.Transport.Receipt.{
  ObservationAccepted, Submitted, pending, invalid, is_acceptance, mismatched,
  validate_observation_receipt,
}
use renga.Transport.Receipt.Bound.{IsUnproven, Proves, validate_observation_receipt_lem}

abbrev accepted : ObservationAccepted
accepted = record {
  status = codes "accepted";
  duplicate = false;
  observation = record { id = 1; observation_id = codes "o"; source_id = 2; observed_at = 5000000 };
  receipt = record { id = 3; position = 9; accepted_at = 7000000 };
  processing = pending;
}

-- The body has the time to the nanosecond; the server keeps the millisecond.
abbrev sent : Submitted
sent = record {
  observed_at = some 5000123;
  observation_id = some (codes "o");
  names_source = false;
}

abbrev read_accepted : Bytes → Option ObservationAccepted
read_accepted _ = some accepted

abbrev read_sent : Bytes → Option Submitted
read_sent _ = some sent

taken : validate_observation_receipt read_accepted read_sent 202 (codes "b") (codes "r") ≡ ok tt
unfolding validate_observation_receipt mismatched is_acceptance bytes_eq
taken = refl

not_repeated :
    validate_observation_receipt read_accepted read_sent 200 (codes "b") (codes "r") ≡ err invalid
unfolding validate_observation_receipt mismatched is_acceptance bytes_eq
not_repeated = refl

validate_observation_receipt_lem_example :
    ((validate_observation_receipt read_accepted read_sent 202 (codes "b") (codes "r") ≡ ok tt)
      × Proves read_accepted read_sent 202 (codes "b") (codes "r"))
    ⊎ (((e : TransportError) × (validate_observation_receipt read_accepted read_sent 202
              (codes "b")
              (codes "r")
            ≡ err e)
          × IsUnproven e)
        × ¬ Proves read_accepted read_sent 202 (codes "b") (codes "r"))
validate_observation_receipt_lem_example =
    validate_observation_receipt_lem read_accepted read_sent 202 (codes "b") (codes "r")

-- ===== src/Transport/Receipt/Bound.antt =====
-- A receipt is taken for one observation only, and a bad one never costs it: the receipts of
-- agent/src/transport.rs.
use renga.Prelude.{
  ℕ, ◌<◌, ◌≡◌, refl, sym, ◌∙◌, ap, Bool, neither, true, false, ◌||◌, not, Option, none, some, ◌==◌,
  ◌⊎◌, inl, inr, Bool-cases, Option-cases, ok, err, arith,
}
use renga.Bytes.{Bytes, bytes_eq}
use renga.Bytes.Equality.{bytes_eq_sound, bytes_eq_refl}
use renga.Bytes.Literals.{codes}
use renga.Transport.Failure.{TransportError, permanent}
use renga.Transport.Receipt.{
  ObservationAccepted, Submitted, timestamp_millis, invalid, is_acceptance, is_id, mismatched,
  validate_observation_receipt,
}

-- The receipt is of exactly the observation that was sent, and was given to this agent's POST.
pub record IsBound (status : ℕ) (accepted : ObservationAccepted) (sent : Submitted)
    (observed_at : ℕ) : Type 0 where
  said : accepted.status ≡ codes "accepted"
  answered :
      ((status ≡ 202) × (accepted.duplicate ≡ false))
      ⊎ ((status ≡ 200) × (accepted.duplicate ≡ true))
  placed : 0 < accepted.receipt.position
  same : sent.observation_id ≡ some accepted.observation.observation_id
  timed : timestamp_millis observed_at ≡ timestamp_millis accepted.observation.observed_at
  unsourced : sent.names_source ≡ false

-- The error is permanent, so that the queue keeps the payload and stops; it asks for no other time and
-- moves nothing.
pub record IsUnproven (e : TransportError) : Type 0 where
  kind : e.kind ≡ permanent
  status : e.status ≡ none
  retry_not_before : e.retry_not_before ≡ none
  moved : e.moved ≡ false
  collector_kind_conflict : e.collector_kind_conflict ≡ false

invalid-IsUnproven : IsUnproven invalid
invalid-IsUnproven = record {
  kind = refl;
  status = refl;
  retry_not_before = refl;
  moved = refl;
  collector_kind_conflict = refl;
}

missing : {A : Type 0} {a : A} → ¬ (none ≡ some a)
missing h = absurd cc

some_injective : {A : Type 0} {a b : A} → ◌≡◌ {A = Option A} (some a) (some b) → a ≡ b
some_injective h = cc

of_not : (b : Bool) → not b ≡ false → b ≡ true
of_not true h = refl
of_not false h = absurd cc

answered_lem :
    (status : ℕ) (duplicate : Bool)
    → is_acceptance status duplicate ≡ true
    → ((status ≡ 202) × (duplicate ≡ false)) ⊎ ((status ≡ 200) × (duplicate ≡ true))
unfolding is_acceptance
answered_lem status true h = inr (ground arith, refl)
answered_lem status false h = inl (ground arith, refl)

is_id_sound : (sent : Option Bytes) (id : Bytes) → is_id sent id ≡ true → sent ≡ some id
is_id_sound none id h = absurd cc
is_id_sound (some s) id h = rw (bytes_eq_sound s id h) refl

mismatched-IsBound :
    (status : ℕ) (a : ObservationAccepted) (s : Submitted) (at : ℕ)
    → mismatched status a s at ≡ false
    → IsBound status a s at
unfolding mismatched
mismatched-IsBound status a s at h =
    let (h, unsourced) = neither _ s.names_source h in
    let (h, timed) =
      neither _ (not (timestamp_millis at == timestamp_millis a.observation.observed_at)) h in
    let (h, same) = neither _ (not (is_id s.observation_id a.observation.observation_id)) h in
    let (h, placed) = neither _ (a.receipt.position == 0) h in
    let (said, answered) =
      neither (not (bytes_eq a.status (codes "accepted"))) (not (is_acceptance status a.duplicate))
        h in
    record {
      said = bytes_eq_sound a.status (codes "accepted") (of_not _ said);
      answered = answered_lem status a.duplicate (of_not _ answered);
      placed = positive a.receipt.position placed;
      same = is_id_sound s.observation_id a.observation.observation_id (of_not _ same);
      timed = equal _ _ (of_not _ timed);
      unsourced = unsourced;
    }
  where
    positive : (n : ℕ) → (n == 0) ≡ false → 0 < n
    positive n h = ground arith

    equal : (m n : ℕ) → (m == n) ≡ true → m ≡ n
    equal m n h = ground arith

bound-matched :
    (status : ℕ) (a : ObservationAccepted) (s : Submitted) (at : ℕ)
    → IsBound status a s at
    → mismatched status a s at ≡ false
unfolding mismatched is_acceptance
bound-matched status a s at b =
    none_of
      (none_of
        (none_of
          (none_of
            (none_of (negated (rw b.said (bytes_eq_refl (codes "accepted")))) (
              negated (elim b.answered [
                | inl (first, fresh) ↦ rw (first, fresh) refl
                | inr (again, repeated) ↦ rw (again, repeated) refl
              ])))
            (nonzero a.receipt.position b.placed))
          (negated (rw b.same (bytes_eq_refl a.observation.observation_id))))
        (negated (rw b.timed (itself (timestamp_millis a.observation.observed_at)))))
      b.unsourced
  where
    none_of : {x y : Bool} → x ≡ false → y ≡ false → (x || y) ≡ false
    none_of h k = rw (h, k) refl

    negated : {x : Bool} → x ≡ true → not x ≡ false
    negated h = rw h refl

    nonzero : (n : ℕ) → 0 < n → (n == 0) ≡ false
    nonzero n h = ground arith

    itself : (n : ℕ) → (n == n) ≡ true
    itself n = ground arith

module _ (read_accepted : Bytes → Option ObservationAccepted)
    (read_submitted : Bytes → Option Submitted) where
  -- Both bodies can be read, and the receipt is of the observation that was sent.
  pub record Proves (status : ℕ) (submitted response : Bytes) : Type 0 where
    accepted : ObservationAccepted
    sent : Submitted
    observed_at : ℕ
    accepted_read : read_accepted response ≡ some accepted
    sent_read : read_submitted submitted ≡ some sent
    time_read : sent.observed_at ≡ some observed_at
    bound : IsBound status accepted sent observed_at

  unbound :
      {status : ℕ} {submitted response : Bytes} (a : ObservationAccepted) (s : Submitted) (at : ℕ)
      → Proves status submitted response
      → read_accepted response ≡ some a
      → read_submitted submitted ≡ some s
      → s.observed_at ≡ some at
      → ¬ (mismatched status a s at ≡ true)
  unbound {status = status} a s at p e f g h =
      let matched = bound-matched status p.accepted p.sent p.observed_at p.bound in
      let accepted_same : a ≡ p.accepted = some_injective (sym e ∙ p.accepted_read) in
      let sent_same : s ≡ p.sent = some_injective (sym f ∙ p.sent_read) in
      let time_same : at ≡ p.observed_at =
        some_injective (sym g ∙ ap (λ t. t.observed_at) sent_same ∙ p.time_read) in
      absurd cc

  -- A response is taken as the receipt of an observation exactly if it says that the observation was
  -- accepted, as the first of its kind with 202 or as a repetition with 200, at a position in the
  -- journal, with the id and the millisecond of the body that was sent, which names no source. For
  -- anything else the error is a permanent one, with no status and no time to retry at: never that
  -- the payload was rejected, which would drop it from the queue.
  pub validate_observation_receipt_lem :
      (status : ℕ) (submitted response : Bytes)
      → let r =
          validate_observation_receipt read_accepted read_submitted status submitted response in
        ((r ≡ ok tt) × Proves status submitted response)
        ⊎ (((e : TransportError) × (r ≡ err e) × IsUnproven e) × ¬ Proves status submitted response)
  unfolding validate_observation_receipt mismatched
  validate_observation_receipt_lem status submitted response =
      elim (Option-cases (read_accepted response)) [
        | inl e ↦
            inr ((invalid, rw e refl, invalid-IsUnproven), λ p. missing (sym e ∙ p.accepted_read))
        | inr (a, e) ↦ elim (Option-cases (read_submitted submitted)) [
          | inl f ↦
              inr
                ((invalid, rw (e, f) refl, invalid-IsUnproven), λ p. missing (sym f ∙ p.sent_read))
          | inr (s, f) ↦ elim (Option-cases s.observed_at) [
            | inl g ↦ inr (
              (invalid, rw (e, f, g) refl, invalid-IsUnproven),
              λ p.
                  let same : s ≡ p.sent = some_injective (sym f ∙ p.sent_read) in
                  missing (sym g ∙ ap (λ t. t.observed_at) same ∙ p.time_read),
            )
            | inr (at, g) ↦ elim (Bool-cases (mismatched status a s at)) [
              | inl h ↦ inr (
                (invalid, rw (e, f, g, h) refl, invalid-IsUnproven),
                λ p. unbound a s at p e f g h,
              )
              | inr h ↦ inl (
                rw (e, f, g, h) refl,
                record {
                  accepted = a;
                  sent = s;
                  observed_at = at;
                  accepted_read = e;
                  sent_read = f;
                  time_read = g;
                  bound = mismatched-IsBound status a s at h;
                },
              )
            ]
          ]
        ]
      ]

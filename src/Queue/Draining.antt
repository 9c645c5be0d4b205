-- ===== src/Queue/Draining.antt =====
-- What becomes of an offer in a delivery pass of agent/src/queue.rs.
use renga.Prelude.{
  ℕ, suc, ◌+◌, ◌≡◌, refl, sym, ap, ◌∙◌, ◌⊎◌, inl, inr, Bool, true, arith, ok, resume-eq-ok,
}
use renga.Bytes.{Bytes}
use renga.Queue.Disk.{Answer, DiskQueue, Action, without, remove, read_directory}
use renga.Queue.Operations.{count_rejected, count_unreadable, publish_health}
use renga.Queue.Delivery.{
  Delivery, accepted, payload_rejected, refused, Drained, noting_rejected, settle,
}
use renga.Queue.Offered.{score}

module _ (is_uuid : Bytes → Bool) (os : ℕ → Answer) (deliver : ℕ → Bytes → Delivery)
    (cancelled : ℕ → Bool) (limit : ℕ) where
  -- An offer that was not refused: its file is gone, and the pass goes on from `s`.
  pub record GoesOn (path body : Bytes) (n : ℕ) (d d' : Drained) (k : Drained → Action Drained)
      (q r : DiskQueue) : Type 0 where
    pub state : DiskQueue
    pub counts : Drained
    pub files : state.files ≡ without path q.files
    pub sent : state.sent ≡ q.sent
    pub calls : state.calls ≡ 2 + q.calls
    pub delivered : counts.delivered ≡ d.delivered + score (deliver n body)
    pub unblocked : counts.blocked ≡ d.blocked
    pub not_refused : ¬ (deliver n body ≡ refused)
    pub rest : k counts state ≡ (ok d', r)

  pub remove_lem :
      (path : Bytes) (b : Bool) (q s : DiskQueue)
      → remove os path q ≡ (ok b, s)
      → (s.files ≡ without path q.files) × (s.sent ≡ q.sent) × (s.calls ≡ suc q.calls)
  unfolding remove
  remove_lem path b q s h = ground arith

  pub publish_lem :
      (u : Unit {0}) (q s : DiskQueue)
      → publish_health is_uuid os q ≡ (ok u, s)
      → (s.files ≡ q.files) × (s.sent ≡ q.sent) × (s.calls ≡ suc q.calls)
  unfolding publish_health read_directory
  publish_lem u q s h = ground arith

  count_rejected_lem :
      (b : Bool) (q : DiskQueue)
      → ((count_rejected b q).files ≡ q.files)
        × ((count_rejected b q).sent ≡ q.sent)
        × ((count_rejected b q).calls ≡ q.calls)
  count_rejected_lem b q = ground arith

  pub count_unreadable_lem :
      (b : Bool) (q : DiskQueue)
      → ((count_unreadable b q).files ≡ q.files)
        × ((count_unreadable b q).sent ≡ q.sent)
        × ((count_unreadable b q).calls ≡ q.calls)
  count_unreadable_lem b q = ground arith

  noting_rejected_lem :
      (b : Bool) (d : Drained)
      → ((noting_rejected b d).delivered ≡ d.delivered)
        × ((noting_rejected b d).blocked ≡ d.blocked)
  noting_rejected_lem b d = ground arith

  accepted_differs : ¬ (accepted ≡ refused)
  accepted_differs h = absurd cc

  rejected_differs : ¬ (payload_rejected ≡ refused)
  rejected_differs h = absurd cc

  pub settle_lem :
      (a : Delivery) (path body : Bytes) (n : ℕ) (d d' : Drained) (k : Drained → Action Drained)
      (q r : DiskQueue)
      → deliver n body ≡ a
      → settle is_uuid os deliver cancelled limit a path d k q ≡ (ok d', r)
      → GoesOn path body n d d' k q r
        ⊎ ((a ≡ refused) × (d' ≡ record d { blocked = true }) × (r ≡ q))
  unfolding settle
  settle_lem accepted path body n d d' k q r e h =
      let (b, s, first, rest) = resume-eq-ok (remove os path q) _ h in
      let (u, t, second, third) = resume-eq-ok (publish_health is_uuid os s) _ rest in
      let one : score (deliver n body) ≡ 1 = ap score e in
      inl (record {
        state = t;
        counts = record d { delivered = suc d.delivered };
        files = (publish_lem u s t second).0 ∙ (remove_lem path b q s first).0;
        sent = (publish_lem u s t second).1 ∙ (remove_lem path b q s first).1;
        calls = omega (arith, (publish_lem u s t second).2, (remove_lem path b q s first).2);
        delivered = omega (arith, one);
        unblocked = refl;
        not_refused = λ x. accepted_differs (sym e ∙ x);
        rest = third;
      })
  settle_lem payload_rejected path body n d d' k q r e h =
      let (b, s, first, rest) = resume-eq-ok (remove os path q) _ h in
      let (u, t, second, third) =
        resume-eq-ok (publish_health is_uuid os (count_rejected b s)) _ rest in
      let none_more : score (deliver n body) ≡ 0 = ap score e in
      inl (record {
        state = t;
        counts = noting_rejected b d;
        files =
            (publish_lem u _ t second).0
            ∙ (count_rejected_lem b s).0
            ∙ (remove_lem path b q s first).0;
        sent =
            (publish_lem u _ t second).1
            ∙ (count_rejected_lem b s).1
            ∙ (remove_lem path b q s first).1;
        calls = omega (
          arith,
          (publish_lem u _ t second).2,
          (count_rejected_lem b s).2,
          (remove_lem path b q s first).2,
        );
        delivered = omega (arith, none_more, (noting_rejected_lem b d).0);
        unblocked = (noting_rejected_lem b d).1;
        not_refused = λ x. rejected_differs (sym e ∙ x);
        rest = third;
      })
  settle_lem refused path body n d d' k q r e h = inr (refl, ground arith, ground arith)

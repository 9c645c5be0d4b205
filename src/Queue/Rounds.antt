-- ===== src/Queue/Rounds.antt =====
-- One round of a delivery pass of agent/src/queue.rs.
use renga.Prelude.{
  ℕ, suc, ◌+◌, ◌≡◌, refl, sym, ap, ◌∙◌, ◌⊎◌, inl, inr, Bool, true, some, List, [], ◌∷◌, ◌++◌, arith,
  ok, resume-eq-ok, find,
}
use renga.Bytes.{Bytes, bytes_eq}
use renga.Queue.Entry.{Entry, File}
use renga.Queue.Disk.{
  Answer, done, vanished, failed, DiskQueue, Action, without, remove, read_file, Contents, found,
  missing, unreadable,
}
use renga.Queue.Operations.{count_unreadable, publish_health}
use renga.Queue.Delivery.{Delivery, refused, Drained, offered_body, settle, offer}
use renga.Queue.Offered.{score}
use renga.Queue.Draining.{remove_lem, publish_lem, count_unreadable_lem, settle_lem}

module _ (is_uuid : Bytes → Bool) (os : ℕ → Answer) (deliver : ℕ → Bytes → Delivery)
    (cancelled : ℕ → Bool) (limit : ℕ) where
  -- One round of the pass: the entry was read and offered, or was skipped; then its file is gone.
  pub data Round (e : Entry) (f : File) (n : ℕ) (d d' : Drained) (k : ℕ → Drained → Action Drained)
      (q r : DiskQueue) : Type 0 where
    offers :
        (s : DiskQueue) (d₁ : Drained)
        → os q.calls ≡ done
        → s.calls ≡ 3 + q.calls
        → s.files ≡ without e.path q.files
        → s.sent ≡ q.sent ++ f.body ∷ []
        → d₁.delivered ≡ d.delivered + score (deliver n f.body)
        → d₁.blocked ≡ d.blocked
        → ¬ (deliver n f.body ≡ refused)
        → k (suc n) d₁ s ≡ (ok d', r)
        → Round e f n d d' k q r
    loses :
        (s : DiskQueue)
        → os q.calls ≡ vanished
        → s.calls ≡ 2 + q.calls
        → s.files ≡ without e.path q.files
        → s.sent ≡ q.sent
        → k n d s ≡ (ok d', r)
        → Round e f n d d' k q r
    skips :
        (s : DiskQueue)
        → os q.calls ≡ failed
        → s.calls ≡ 3 + q.calls
        → s.files ≡ without e.path q.files
        → s.sent ≡ q.sent
        → k n d s ≡ (ok d', r)
        → Round e f n d d' k q r
    stops :
        os q.calls ≡ done
        → deliver n f.body ≡ refused
        → d' ≡ record d { blocked = true }
        → r.files ≡ q.files
        → r.sent ≡ q.sent ++ f.body ∷ []
        → Round e f n d d' k q r

  pub read_cases :
      (path : Bytes) (f : File) (c : Contents) (q s : DiskQueue)
      → find (λ g. bytes_eq g.name path) q.files ≡ some f
      → read_file os path q ≡ (ok c, s)
      → (s.sent ≡ q.sent)
        × (s.calls ≡ suc q.calls)
        × (((c ≡ found f.body) × (s.files ≡ q.files) × (os q.calls ≡ done))
            ⊎ ((c ≡ missing) × (s.files ≡ without path q.files) × (os q.calls ≡ vanished))
            ⊎ ((c ≡ unreadable) × (s.files ≡ q.files) × (os q.calls ≡ failed)))
  unfolding read_file
  read_cases path f c q s h k = ground arith

  found_lem :
      (path body b : Bytes) (fs gs : List File) {A B C : Type 0}
      → ((found b ≡ found body) × (gs ≡ fs) × A)
        ⊎ ((found b ≡ missing) × (gs ≡ without path fs) × B)
        ⊎ ((found b ≡ unreadable) × (gs ≡ fs) × C)
      → (b ≡ body) × (gs ≡ fs) × A
  found_lem path body b fs gs (inl (h, g, a)) = (cc h, g, a)
  found_lem path body b fs gs (inr (inl (h, _, _))) = absurd cc
  found_lem path body b fs gs (inr (inr (h, _, _))) = absurd cc

  vanished_lem :
      (path body : Bytes) (fs gs : List File) {A B C : Type 0}
      → ((missing ≡ found body) × (gs ≡ fs) × A)
        ⊎ ((missing ≡ missing) × (gs ≡ without path fs) × B)
        ⊎ ((missing ≡ unreadable) × (gs ≡ fs) × C)
      → (gs ≡ without path fs) × B
  vanished_lem path body fs gs (inl (h, _, _)) = absurd cc
  vanished_lem path body fs gs (inr (inl (_, h, b))) = (h, b)
  vanished_lem path body fs gs (inr (inr (h, _, _))) = absurd cc

  unreadable_lem :
      (path body : Bytes) (fs gs : List File) {A B C : Type 0}
      → ((unreadable ≡ found body) × (gs ≡ fs) × A)
        ⊎ ((unreadable ≡ missing) × (gs ≡ without path fs) × B)
        ⊎ ((unreadable ≡ unreadable) × (gs ≡ fs) × C)
      → (gs ≡ fs) × C
  unreadable_lem path body fs gs (inl (h, _, _)) = absurd cc
  unreadable_lem path body fs gs (inr (inl (h, _, _))) = absurd cc
  unreadable_lem path body fs gs (inr (inr (_, h, b))) = (h, b)

  pub round_lem :
      (e : Entry) (f : File) (n : ℕ) (d d' : Drained) (k : ℕ → Drained → Action Drained)
      (c : Contents) (q s r : DiskQueue)
      → (s.sent ≡ q.sent)
        × (s.calls ≡ suc q.calls)
        × (((c ≡ found f.body) × (s.files ≡ q.files) × (os q.calls ≡ done))
            ⊎ ((c ≡ missing) × (s.files ≡ without e.path q.files) × (os q.calls ≡ vanished))
            ⊎ ((c ≡ unreadable) × (s.files ≡ q.files) × (os q.calls ≡ failed)))
      → offer is_uuid os deliver cancelled limit c e.path n d k s ≡ (ok d', r)
      → Round e f n d d' k q r
  unfolding offer
  round_lem e f n d d' k (found b) q s r (same, count, o) h =
      let (eb, ef, ready) = found_lem e.path f.body b q.files s.files o in go b (eb, ef, ready) h
    where
      go :
          (b' : Bytes)
          → (b' ≡ f.body) × (s.files ≡ q.files) × (os q.calls ≡ done)
          → settle is_uuid os deliver cancelled limit
              (deliver n b')
              e.path
              d
              (k (suc n))
              (offered_body b' s)
            ≡ (ok d', r)
          → Round e f n d d' k q r
      go b' (eb, ef, ready) h' =
          elim (settle_lem is_uuid os deliver cancelled limit (deliver n b') e.path b' n d d'
            (k (suc n)) (offered_body b' s) r refl h') [
              | inl g ↦
                  offers g.state g.counts ready (omega (arith, g.calls, count))
                    (g.files ∙ ap (without e.path) ef) (g.sent ∙ cc (same, eb))
                    (g.delivered ∙ ap (λ x. d.delivered + score (deliver n x)) eb) g.unblocked
                    (λ x. g.not_refused (ap (deliver n) eb ∙ x)) g.rest
              | inr (er, ed, es) ↦
                  stops ready (ap (deliver n) (sym eb) ∙ er) ed (ap (λ t. t.files) es ∙ ef)
                    (ap (λ t. t.sent) es ∙ cc (same, eb))
            ]
  round_lem e f n d d' k missing q s r (same, count, o) h =
      let (gone, broken) = vanished_lem e.path f.body q.files s.files o in
      let (u, t, first, rest) = resume-eq-ok (publish_health is_uuid os s) _ h in
      loses t broken
        (omega (arith, count, (publish_lem is_uuid os deliver cancelled limit u s t first).2))
        ((publish_lem is_uuid os deliver cancelled limit u s t first).0 ∙ gone)
        ((publish_lem is_uuid os deliver cancelled limit u s t first).1 ∙ same) rest
  round_lem e f n d d' k unreadable q s r (same, count, o) h =
      let (kept, broken) = unreadable_lem e.path f.body q.files s.files o in
      let (b, t, first, rest) = resume-eq-ok (remove os e.path s) _ h in
      let (u, v, second, third) =
        resume-eq-ok (publish_health is_uuid os (count_unreadable b t)) _ rest in
      skips v broken
        (omega (
          arith,
          count,
          (publish_lem is_uuid os deliver cancelled limit u _ v second).2,
          (count_unreadable_lem is_uuid os deliver cancelled limit b t).2,
          (remove_lem is_uuid os deliver cancelled limit e.path b s t first).2,
        ))
        ((publish_lem is_uuid os deliver cancelled limit u _ v second).0
          ∙ (count_unreadable_lem is_uuid os deliver cancelled limit b t).0
          ∙ (remove_lem is_uuid os deliver cancelled limit e.path b s t first).0
          ∙ ap (without e.path) kept)
        ((publish_lem is_uuid os deliver cancelled limit u _ v second).1
          ∙ (count_unreadable_lem is_uuid os deliver cancelled limit b t).1
          ∙ (remove_lem is_uuid os deliver cancelled limit e.path b s t first).1
          ∙ same)
        third

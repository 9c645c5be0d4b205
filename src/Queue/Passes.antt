-- ===== src/Queue/Passes.antt =====
-- A delivery pass of agent/src/queue.rs as a whole: what was offered, in which order, and what is left.
use renga.Prelude.{
  ℕ, suc, ◌+◌, ◌≤◌, ◌≡◌, refl, sym, ap, ◌∙◌, ◌⊎◌, inl, inr, Bool, true, false, ◌||◌, some, List, [],
  ◌∷◌, ◌++◌, leb, length, All, Bool-cases, arith, subst, Result, ok, resume, resume-eq-ok, find,
  drop,
}
use renga.Bytes.{Bytes, bytes_eq}
use renga.Queue.Entry.{Entry, File, listed}
use renga.Queue.Disk.{Answer, done, vanished, failed, QueueError, DiskQueue, without, read_file}
use renga.Queue.Listing.{Distinct, without-Distinct, listed-without_head}
use renga.Queue.Delivery.{Delivery, refused, Drained, offer, deliver_each}
use renga.Queue.Offered.{
  Took, end, skip, vanishes, offered, stopped, accepted_of, HasFile, listed-HasFile, Within,
  without-Within, Took-Within,
}
use renga.Queue.Rounds.{offers, loses, skips, stops, round_lem, read_cases}
use mathlib.Core.List.{append-nil, append_assoc}
use native.Mathlib.Nat.{add-zero}

or_false : (b : Bool) → (b || false) ≡ b
or_false true = refl
or_false false = refl

or_true : (b : Bool) → (b || true) ≡ true
or_true true = refl
or_true false = refl

within : (path : Bytes) (fs gs hs : List File) → gs ≡ without path fs → Within hs gs → Within hs fs
within path fs gs hs e w name f h =
    without-Within path fs name f
      (subst (λ xs. find (λ g. bytes_eq g.name name) xs ≡ some f) e (w name f h))

shift : (a b : ℕ) → a + suc b ≡ suc a + b
shift a b = omega arith

module _ (is_uuid : Bytes → Bool) (os : ℕ → Answer) (deliver : ℕ → Bytes → Delivery)
    (cancelled : ℕ → Bool) (limit : ℕ) where
  -- What a pass over the queue `es` did: `gone` entries were taken off its front and nothing else, in
  -- the way of `Took`, the first offer being number `n` and the first read call number `call`; every
  -- file that is left was there before, as it is; and if entries are left, the pass was stopped by a
  -- refusal, by the cancellation or by its limit. It is blocked afterwards exactly if it was before
  -- or a refusal ended it.
  pub record Passed (es : List Entry) (seen n call : ℕ) (d d' : Drained) (q r : DiskQueue)
      : Type 0 where
    pub gone : ℕ
    pub bodies : List Bytes
    pub stop : Bool
    pub left : listed is_uuid r.files ≡ drop gone es
    pub kept : Within r.files q.files
    pub sent : r.sent ≡ q.sent ++ bodies
    pub took : Took os deliver q.files n call gone stop es bodies
    pub counted : d'.delivered ≡ d.delivered + accepted_of deliver n bodies
    pub blocked : d'.blocked ≡ (d.blocked || stop)
    pub stopped :
        (drop gone es ≡ [])
        ⊎ (stop ≡ true)
        ⊎ (cancelled (seen + gone) ≡ true)
        ⊎ (limit ≤ n + length bodies)

  deliver_each-stops :
      (e : Entry) (es : List Entry) (seen n : ℕ) (d : Drained) (q : DiskQueue)
      → (cancelled seen || leb limit n) ≡ true
      → deliver_each is_uuid os deliver cancelled limit (e ∷ es) seen n d q ≡ (ok d, q)
  unfolding deliver_each
  deliver_each-stops e es seen n d q h = rw h

  deliver_each-reads :
      (e : Entry) (es : List Entry) (seen n : ℕ) (d : Drained) (q : DiskQueue)
      → (cancelled seen || leb limit n) ≡ false
      → deliver_each is_uuid os deliver cancelled limit (e ∷ es) seen n d q
        ≡ resume (read_file os e.path q) (λ c.
          offer is_uuid os deliver cancelled limit c e.path n d
            (deliver_each is_uuid os deliver cancelled limit es (suc seen)))
  unfolding deliver_each
  deliver_each-reads e es seen n d q h = rw h

  nothing_done :
      (es : List Entry) (seen n call : ℕ) (d : Drained) (q : DiskQueue)
      → listed is_uuid q.files ≡ es
      → (es ≡ []) ⊎ ((cancelled seen || leb limit n) ≡ true)
      → Passed es seen n call d d q q
  nothing_done es seen n call d q l s = record {
    gone = 0;
    bodies = [];
    left = l;
    stop = false;
    kept = λ _ _ h. h;
    blocked = sym (or_false d.blocked);
    sent = sym (append-nil q.sent);
    took = end n call es;
    counted = omega arith;
    stopped = elim s [
      | inl e ↦ inl e
      | inr t ↦ inr (
          inr (elim (Bool-cases (cancelled seen)) [
            | inl c ↦ inl (ap cancelled (add-zero seen) ∙ c)
            | inr c ↦ inr (ground arith)
          ]))
    ];
  }

  unchanged :
      (es : List Entry) (seen n call : ℕ) (d d' : Drained) (q r : DiskQueue)
      → ◌≡◌ {A = Result Drained QueueError × DiskQueue} (ok d, q) (ok d', r)
      → Passed es seen n call d d q q
      → Passed es seen n call d d' q r
  unchanged es seen n call d d' q r h p =
      let ed : d ≡ d' = ground arith in
      let eq : q ≡ r = ground arith in
      subst (λ x. Passed es seen n call d x q r) ed (subst (Passed es seen n call d d q) eq p)

  -- What was taken of the rest was taken of the whole directory.
  taken :
      (path : Bytes) (fs gs : List File) {n call gone : ℕ} {stop : Bool} {es : List Entry}
      {bs : List Bytes}
      → gs ≡ without path fs
      → Took os deliver gs n call gone stop es bs
      → Took os deliver fs n call gone stop es bs
  taken path fs gs e o = Took-Within os deliver gs fs (within path fs gs gs e (λ _ _ h. h)) o

  -- An accepted or dropped offer, and then the rest of the pass.
  after_offer :
      (e : Entry) (f : File) (es : List Entry) (seen n call : ℕ) (d d₁ d' : Drained)
      (q s r : DiskQueue)
      → os call ≡ done
      → find (λ g. bytes_eq g.name e.path) q.files ≡ some f
      → s.files ≡ without e.path q.files
      → s.sent ≡ q.sent ++ f.body ∷ []
      → d₁.delivered ≡ d.delivered + accepted_of deliver n (f.body ∷ [])
      → d₁.blocked ≡ d.blocked
      → ¬ (deliver n f.body ≡ refused)
      → Passed es (suc seen) (suc n) (3 + call) d₁ d' s r
      → Passed (e ∷ es) seen n call d d' q r
  after_offer e f es seen n call d d₁ d' q s r ready hf ef es' ed eb nr p = record {
    gone = suc p.gone;
    bodies = f.body ∷ p.bodies;
    left = p.left;
    sent = p.sent ∙ ap (λ b. b ++ p.bodies) es' ∙ append_assoc q.sent (f.body ∷ []) p.bodies;
    stop = p.stop;
    kept = within e.path q.files s.files r.files ef p.kept;
    blocked = p.blocked ∙ ap (λ b. b || p.stop) eb;
    took = offered e f ready hf nr (taken e.path q.files s.files ef p.took);
    counted = omega (arith, p.counted, ed);
    stopped = elim p.stopped [
      | inl x ↦ inl x
      | inr (inl x) ↦ inr (inl x)
      | inr (inr (inl x)) ↦ inr (inr (inl (ap cancelled (shift seen p.gone) ∙ x)))
      | inr (inr (inr x)) ↦ inr (inr (inr (omega (arith, x))))
    ];
  }

  skipped :
      (e : Entry) (call next : ℕ) {fs : List File} {n gone : ℕ} {stop : Bool} {es : List Entry}
      {bs : List Bytes}
      → ((os call ≡ vanished) × (next ≡ 2 + call)) ⊎ ((os call ≡ failed) × (next ≡ 3 + call))
      → Took os deliver fs n next gone stop es bs
      → Took os deliver fs n call (suc gone) stop (e ∷ es) bs
  skipped e call next {fs = fs} {n = n} {gone = gone} {stop = stop} {es = es} {bs = bs} (inl (v, c))
        o =
      vanishes e v (subst (λ m. Took os deliver fs n m gone stop es bs) c o)
  skipped e call next {fs = fs} {n = n} {gone = gone} {stop = stop} {es = es} {bs = bs} (inr (v, c))
        o =
      skip e v (subst (λ m. Took os deliver fs n m gone stop es bs) c o)

  after_skip :
      (e : Entry) (es : List Entry) (seen n call next : ℕ) (d d' : Drained) (q s r : DiskQueue)
      → ((os call ≡ vanished) × (next ≡ 2 + call)) ⊎ ((os call ≡ failed) × (next ≡ 3 + call))
      → s.files ≡ without e.path q.files
      → s.sent ≡ q.sent
      → Passed es (suc seen) n next d d' s r
      → Passed (e ∷ es) seen n call d d' q r
  after_skip e es seen n call next d d' q s r bad ef es' p = record {
    gone = suc p.gone;
    bodies = p.bodies;
    left = p.left;
    sent = p.sent ∙ ap (λ b. b ++ p.bodies) es';
    stop = p.stop;
    kept = within e.path q.files s.files r.files ef p.kept;
    blocked = p.blocked;
    took = skipped e call next bad (taken e.path q.files s.files ef p.took);
    counted = p.counted;
    stopped = elim p.stopped [
      | inl x ↦ inl x
      | inr (inl x) ↦ inr (inl x)
      | inr (inr (inl x)) ↦ inr (inr (inl (ap cancelled (shift seen p.gone) ∙ x)))
      | inr (inr (inr x)) ↦ inr (inr (inr x))
    ];
  }

  after_refusal :
      (e : Entry) (f : File) (es : List Entry) (seen n call : ℕ) (d d' : Drained) (q r : DiskQueue)
      → os call ≡ done
      → listed is_uuid q.files ≡ e ∷ es
      → find (λ g. bytes_eq g.name e.path) q.files ≡ some f
      → deliver n f.body ≡ refused
      → d' ≡ record d { blocked = true }
      → r.files ≡ q.files
      → r.sent ≡ q.sent ++ f.body ∷ []
      → Passed (e ∷ es) seen n call d d' q r
  after_refusal e f es seen n call d d' q r ready l hf ea ed ef es' = record {
    gone = 0;
    bodies = f.body ∷ [];
    left = ap (listed is_uuid) ef ∙ l;
    sent = es';
    stop = true;
    kept = λ name g h. subst (λ fs. find (λ x. bytes_eq x.name name) fs ≡ some g) ef h;
    blocked = ap (λ x. x.blocked) ed ∙ sym (or_true d.blocked);
    took = stopped e f ready hf ea;
    counted = ground (arith, ea);
    stopped = inr (inl refl);
  }

  pub deliver_each_lem :
      (es : List Entry) (seen n : ℕ) (d d' : Drained) (q r : DiskQueue)
      → Distinct q.files
      → listed is_uuid q.files ≡ es
      → deliver_each is_uuid os deliver cancelled limit es seen n d q ≡ (ok d', r)
      → Passed es seen n q.calls d d' q r
  deliver_each_lem [] seen n d d' q r dq l h =
      unchanged [] seen n q.calls d d' q r (unfold deliver_each in h)
        (nothing_done [] seen n q.calls d q l (inl refl))
  deliver_each_lem (e ∷ es) seen n d d' q r dq l h =
      elim (Bool-cases (cancelled seen || leb limit n)) [
        | inl s ↦
            unchanged (e ∷ es) seen n q.calls d d' q r
              (sym (deliver_each-stops e es seen n d q s) ∙ h)
              (nothing_done (e ∷ es) seen n q.calls d q l (inr s))
        | inr g ↦
            let (f, hf) = (subst (All (HasFile q.files)) l (listed-HasFile is_uuid q.files)).0 in
            let (c, s, first, rest) =
              resume-eq-ok (read_file os e.path q) _
                (sym (deliver_each-reads e es seen n d q g) ∙ h) in
            let smaller = without-Distinct e.path q.files dq in
            let tail = listed-without_head is_uuid q.files e es dq l in
            elim (round_lem is_uuid os deliver cancelled limit e f n d d'
              (deliver_each is_uuid os deliver cancelled limit es (suc seen)) c q s r
              (read_cases is_uuid os deliver cancelled limit e.path f c q s hf first) rest) [
                | offers t d₁ ready calls ef es' ed eb nr k ↦
                    after_offer e f es seen n q.calls d d₁ d' q t r ready hf ef es'
                      (omega (arith, ed)) eb nr
                      (subst (λ c. Passed es (suc seen) (suc n) c d₁ d' t r) calls
                        (deliver_each_lem es (suc seen) (suc n) d₁ d' t r (rw ef smaller)
                          (rw ef tail) k))
                | loses t bad calls ef es' k ↦
                    after_skip e es seen n q.calls t.calls d d' q t r (inl (bad, calls)) ef es'
                      (deliver_each_lem es (suc seen) n d d' t r (rw ef smaller) (rw ef tail) k)
                | skips t bad calls ef es' k ↦
                    after_skip e es seen n q.calls t.calls d d' q t r (inr (bad, calls)) ef es'
                      (deliver_each_lem es (suc seen) n d d' t r (rw ef smaller) (rw ef tail) k)
                | stops ready ea ed ef es' ↦
                    after_refusal e f es seen n q.calls d d' q r ready l hf ea ed ef es'
              ]
      ]

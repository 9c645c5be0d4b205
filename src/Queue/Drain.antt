-- ===== src/Queue/Drain.antt =====
-- A whole delivery pass of agent/src/queue.rs: `drain_at_most`, expiry included.
use renga.Prelude.{
  suc, ◌+◌, ◌*◌, length, ℕ, ◌≡◌, sym, ap, ◌∙◌, Bool, some, List, [], ◌∷◌, ◌++◌, filter, arith,
  subst, ok, resume-eq-ok, all, find,
}
use renga.Bytes.{Bytes, bytes_eq}
use renga.Queue.Entry.{Entry, listed}
use renga.Queue.Disk.{Answer, read_directory, remove, DiskQueue}
use renga.Queue.Listing.{Distinct}
use renga.Queue.Operations.{entries, publish_health, drop_for_age, drop_expired, expire, is_expired}
use renga.Queue.Dropping.{drop_for_age_lem, Unmoved, unexpired}
use renga.Queue.Enqueue.{entries_lem}
use renga.Queue.Expiry.{expire-unexpired}
use renga.Queue.Delivery.{Delivery, Drained, nothing_drained, deliver_each, drain_at_most}
use renga.Queue.Offered.{Took, Within, without-Within, Took-Within}
use renga.Queue.Draining.{publish_lem}
use renga.Queue.Passes.{Passed, deliver_each_lem}

module _ (is_uuid : Bytes → Bool) (os : ℕ → Answer) where
  drop_expired-Within :
      (xs : List Entry) (q r : DiskQueue)
      → drop_expired is_uuid os xs q ≡ (ok tt, r)
      → Within r.files q.files
  unfolding drop_expired
  drop_expired-Within [] q r h name f k = ground arith
  drop_expired-Within (x ∷ xs) q r h name f k =
      let (_, s, first, rest) = resume-eq-ok (drop_for_age is_uuid os x q) _ h in
      let dropped = drop_for_age_lem is_uuid os x q s first in
      without-Within x.path q.files name f (
        subst (λ fs. find (λ g. bytes_eq g.name name) fs ≡ some f) dropped.0
          (drop_expired-Within xs s r rest name f k))

  expire-Within :
      (es cs : List Entry) (now : ℕ) (q r : DiskQueue)
      → expire is_uuid os es now q ≡ (ok cs, r)
      → Within r.files q.files
  unfolding expire
  expire-Within es cs now q r h =
      let (_, s, first, rest) =
        resume-eq-ok (drop_expired is_uuid os (filter (is_expired q.limits now) es) q) _ h in
      let same : s ≡ r = cc rest in
      subst (λ t. Within t.files q.files) same (drop_expired-Within _ q s first)

  drop_for_age-calls :
      (e : Entry) (q r : DiskQueue)
      → drop_for_age is_uuid os e q ≡ (ok tt, r)
      → r.calls ≡ 2 + q.calls
  unfolding drop_for_age publish_health read_directory remove
  drop_for_age-calls e q r h = ground arith

  drop_expired-calls :
      (xs : List Entry) (q r : DiskQueue)
      → drop_expired is_uuid os xs q ≡ (ok tt, r)
      → r.calls ≡ q.calls + 2 * length xs
  unfolding drop_expired
  drop_expired-calls [] q r h = ground arith
  drop_expired-calls (x ∷ xs) q r h =
      let (_, s, first, rest) = resume-eq-ok (drop_for_age is_uuid os x q) _ h in
      omega (arith, drop_for_age-calls x q s first, drop_expired-calls xs s r rest)

  expire-calls :
      (es cs : List Entry) (now : ℕ) (q r : DiskQueue)
      → expire is_uuid os es now q ≡ (ok cs, r)
      → r.calls ≡ q.calls + 2 * length (filter (is_expired q.limits now) es)
  unfolding expire
  expire-calls es cs now q r h =
      let (_, s, first, rest) =
        resume-eq-ok (drop_expired is_uuid os (filter (is_expired q.limits now) es) q) _ h in
      let same : s ≡ r = cc rest in ap (λ t. t.calls) (sym same) ∙ drop_expired-calls _ q s first

  entries-calls :
      (es : List Entry) (q s : DiskQueue)
      → entries is_uuid os q ≡ (ok es, s)
      → s.calls ≡ suc q.calls
  unfolding entries read_directory
  entries-calls es q s h = ground arith

  -- The number of the first read of a pass: the directory is listed before it, and each entry that is
  -- too old is removed and the directory listed again.
  abbrev pub first_read : ℕ → DiskQueue → ℕ
  first_read now q =
      suc q.calls + 2 * length (filter (is_expired q.limits now) (listed is_uuid q.files))

module _ (is_uuid : Bytes → Bool) (os : ℕ → Answer) (deliver : ℕ → Bytes → Delivery)
    (cancelled : ℕ → Bool) (limit : ℕ) where
  expired_then_delivered :
      (now : ℕ) (cs : List Entry) (d : Drained) (q s t u r : DiskQueue)
      → Distinct q.files
      → s.files ≡ q.files
      → Unmoved q s
      → s.calls ≡ suc q.calls
      → expire is_uuid os (listed is_uuid s.files) now s ≡ (ok cs, t)
      → deliver_each is_uuid os deliver cancelled limit cs 0 0 nothing_drained t ≡ (ok d, u)
      → r.files ≡ u.files
      → r.sent ≡ u.sent
      → Passed is_uuid os deliver cancelled limit
          (unexpired q.limits now (listed is_uuid q.files))
          0
          0
          (first_read is_uuid os now q)
          nothing_drained
          d
          q
          r
  expired_then_delivered now cs d q s t u r dq ef eu ec₀ second third rf rs =
      let before : listed is_uuid s.files ≡ listed is_uuid q.files = ap (listed is_uuid) ef in
      let (ec, lt, dt, ut) = expire-unexpired is_uuid os now cs s t (rw ef dq) second in
      let current = unexpired q.limits now (listed is_uuid q.files) in
      let now_current : cs ≡ current =
        ec
        ∙ ap (λ l. unexpired l now (listed is_uuid s.files)) eu.limits
        ∙ ap (unexpired q.limits now) before in
      let smaller : Within t.files q.files =
        subst (Within t.files) ef (expire-Within is_uuid os _ cs now s t second) in
      let p =
        deliver_each_lem is_uuid os deliver cancelled limit current 0 0 nothing_drained d t u dt
          (lt ∙ sym ec ∙ now_current)
          (subst
            (λ es.
              deliver_each is_uuid os deliver cancelled limit es 0 0 nothing_drained t ≡ (ok d, u))
            now_current third) in
      let reads : t.calls ≡ first_read is_uuid os now q =
        expire-calls is_uuid os _ cs now s t second
        ∙ ap (λ l. s.calls + 2 * length (filter (is_expired l now) (listed is_uuid s.files)))
            eu.limits
        ∙ ap (λ fs. s.calls + 2 * length (filter (is_expired q.limits now) (listed is_uuid fs))) ef
        ∙ ap (λ n. n + 2 * length (filter (is_expired q.limits now) (listed is_uuid q.files)))
            ec₀ in
      record {
        gone = p.gone;
        bodies = p.bodies;
        left = ap (listed is_uuid) rf ∙ p.left;
        sent = rs ∙ p.sent ∙ ap (λ b. b ++ p.bodies) (ut.sent ∙ eu.sent);
        stop = p.stop;
        kept = λ name f h.
            smaller name f
              (p.kept name f (subst (λ fs. find (λ g. bytes_eq g.name name) fs ≡ some f) rf h));
        blocked = p.blocked;
        took =
            subst (λ c. Took os deliver q.files 0 c p.gone p.stop current p.bodies) reads
              (Took-Within os deliver t.files q.files smaller p.took);
        counted = p.counted;
        stopped = p.stopped;
      }

  -- In a directory in which no two files have the same name, a delivery pass that ends without an
  -- error took some of the entries that are not too old off the front of the queue, and left all
  -- behind them; no file that it left is changed. It went through them in queue order and offered
  -- the body of each, read whole from its own file: an entry was taken off after an offer that was
  -- accepted or rejected, or without one only if its own file had vanished or could not be read. An
  -- offer that was refused is the last one, its entry stays, and only then is the pass blocked. It
  -- counted as delivered exactly the offers that were accepted; and if it left anything, an offer
  -- was refused, the cancellation was signalled, or it had made as many offers as its limit allows.
  pub drain_oldest_first :
      (now : ℕ) (d : Drained) (q r : DiskQueue)
      → Distinct q.files
      → drain_at_most is_uuid os deliver cancelled limit now q ≡ (ok d, r)
      → Passed is_uuid os deliver cancelled limit
          (unexpired q.limits now (listed is_uuid q.files))
          0
          0
          (first_read is_uuid os now q)
          nothing_drained
          d
          q
          r
  unfolding drain_at_most
  drain_oldest_first now d q r dq h =
      let (all, s, first, rest) = resume-eq-ok (entries is_uuid os q) _ h in
      let (ea, ef, eu) = entries_lem is_uuid os q s all first in
      let (cs, t, second, rest₂) = resume-eq-ok (expire is_uuid os all now s) _ rest in
      let (d₁, u, third, rest₃) =
        resume-eq-ok (deliver_each is_uuid os deliver cancelled limit cs 0 0 nothing_drained t) _
          rest₂ in
      let (_, v, fourth, last) = resume-eq-ok (publish_health is_uuid os u) _ rest₃ in
      let (pf, ps, _) = publish_lem is_uuid os deliver cancelled limit _ u v fourth in
      let same : v ≡ r = ground (arith, last) in
      let counts : d₁ ≡ d = ground (arith, last) in
      expired_then_delivered now cs d q s t u r dq ef eu (entries-calls is_uuid os all q s first)
        (subst (λ es. expire is_uuid os es now s ≡ (ok cs, t)) (ea ∙ ap (listed is_uuid) (sym ef))
          second)
        (subst
          (λ x.
            deliver_each is_uuid os deliver cancelled limit cs 0 0 nothing_drained t ≡ (ok x, u))
          counts third)
        (ap (λ x. x.files) (sym same) ∙ pf) (ap (λ x. x.sent) (sym same) ∙ ps)

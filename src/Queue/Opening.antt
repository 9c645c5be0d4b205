-- ===== src/Queue/Opening.antt =====
-- Start-up of the queue: `open` and `remove_abandoned_temporaries` of agent/src/queue.rs.
use renga.Prelude.{
  ℕ, zero, suc, ◌-◌, ◌≡◌, refl, sym, ap, ◌∙◌, inl, inr, Bool, true, false, ◌&&◌, none, List, [],
  ◌∷◌, ◌++◌, ltb, take, drop, Bool-cases, arith, ok, resume-eq-ok,
}
use renga.Bytes.{Bytes}
use renga.Bytes.Equality.{bytes_eq_sound}
use renga.Queue.Name.{temporary_prefix, parse_entry_name}
use renga.Queue.Name.RoundTrip.{parse_entry_name-temporary}
use renga.Queue.Entry.{File, listed, no_counts}
use renga.Queue.Disk.{Answer, DiskQueue, read_directory, remove}
use renga.Queue.Operations.{entries, publish_health, next_after}
use renga.Queue.Delivery.{
  starts_temporary, abandoned_temporary_age, remove_each, remove_abandoned_temporaries, open_queue,
}
use renga.Queue.Writing.{listed-without_foreign}
use renga.Queue.Enqueue.{entries_lem}

take-drop : (n : ℕ) (s : Bytes) → take n s ++ drop n s ≡ s
take-drop zero s = refl
take-drop (suc n) [] = refl
take-drop (suc n) (x ∷ s) = ap (λ t. x ∷ t) (take-drop n s)

module _ (is_uuid : Bytes → Bool) (os : ℕ → Answer) where
  temporary-foreign :
      (f : File) → starts_temporary is_uuid os f ≡ true → parse_entry_name is_uuid f.name ≡ none
  temporary-foreign f h =
      let front = bytes_eq_sound (take 5 f.name) temporary_prefix h in
      let whole : f.name ≡ temporary_prefix ++ drop 5 f.name =
        sym (take-drop 5 f.name) ∙ ap (λ t. t ++ drop 5 f.name) front in
      ap (parse_entry_name is_uuid) whole ∙ parse_entry_name-temporary is_uuid (drop 5 f.name)

  -- What removing the file of a temporary leaves.
  remove-foreign :
      (path : Bytes) (b : Bool) (q r : DiskQueue)
      → parse_entry_name is_uuid path ≡ none
      → remove os path q ≡ (ok b, r)
      → (listed is_uuid r.files ≡ listed is_uuid q.files) × (r.sent ≡ q.sent)
  unfolding remove
  remove-foreign path b q r f h = ground (arith, h, listed-without_foreign is_uuid path q.files f)

  remove_each-listed :
      (now : ℕ) (fs : List File) (q r : DiskQueue)
      → remove_each is_uuid os now fs q ≡ (ok tt, r)
      → (listed is_uuid r.files ≡ listed is_uuid q.files) × (r.sent ≡ q.sent)
  unfolding remove_each
  remove_each-listed now [] q r h =
      (ap (λ p. listed is_uuid p.1.files) (sym h), ap (λ p. p.1.sent) (sym h))
  remove_each-listed now (f ∷ fs) q r h =
      elim (Bool-cases
        (starts_temporary is_uuid os f && ltb abandoned_temporary_age (now - f.modified))) [
          | inr n ↦ remove_each-listed now fs q r (ground (arith, h, n))
          | inl y ↦
              let (b, s, first, rest) =
                resume-eq-ok (remove os f.name q) (λ _. remove_each is_uuid os now fs)
                  (ground (arith, h, y)) in
              let (l, t) =
                remove-foreign f.name b q s (temporary-foreign f (ground (arith, y))) first in
              let (l', t') = remove_each-listed now fs s r rest in (l' ∙ l, t' ∙ t)
        ]

  read_directory-files :
      (q s : DiskQueue) (fs : List File)
      → read_directory os q ≡ (ok fs, s)
      → (s.files ≡ q.files) × (s.sent ≡ q.sent)
  unfolding read_directory
  read_directory-files q s fs h = ground (arith, h)

  publish-keeps :
      (q r : DiskQueue)
      → publish_health is_uuid os q ≡ (ok tt, r)
      → (r.files ≡ q.files)
        × (r.sent ≡ q.sent)
        × (r.next_sequence ≡ q.next_sequence)
        × (r.counters ≡ q.counters)
  unfolding publish_health read_directory
  publish-keeps q r h = ground (arith, h)

  -- A queue that opens holds exactly the entries that its directory had, whatever other files were
  -- cleared away; its next sequence is the one after the last entry's, and nothing was delivered.
  pub open_queue_lem :
      (ready : Bool) (now : ℕ) (q r : DiskQueue)
      → open_queue is_uuid os ready now q ≡ (ok tt, r)
      → (listed is_uuid r.files ≡ listed is_uuid q.files)
        × (r.next_sequence ≡ next_after (listed is_uuid q.files))
        × (r.sent ≡ q.sent)
  unfolding open_queue
  open_queue_lem false now q r h = cc
  open_queue_lem true now q r h =
      let q₀ = record q { next_sequence = 0; counters = no_counts } in
      let (_, s, first, rest) = resume-eq-ok (remove_abandoned_temporaries is_uuid os now q₀) _ h in
      let (fs, t, read, each) =
        resume-eq-ok (read_directory os q₀) _ (unfold remove_abandoned_temporaries in first) in
      let (ef, es) = read_directory-files q₀ t fs read in
      let (l, z) = remove_each-listed now fs t s each in
      let (all, u, second, third) = resume-eq-ok (entries is_uuid os s) _ rest in
      let (ea, eu, un) = entries_lem is_uuid os s u all second in
      let (pf, ps, pn, _) = publish-keeps (record u { next_sequence = next_after all }) r third in
      let same : listed is_uuid s.files ≡ listed is_uuid q.files = l ∙ ap (listed is_uuid) ef in
      (ap (listed is_uuid) (pf ∙ eu) ∙ same, pn ∙ ap next_after (ea ∙ same), ps ∙ un.sent ∙ z ∙ es)

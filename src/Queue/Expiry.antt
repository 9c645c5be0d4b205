-- ===== src/Queue/Expiry.antt =====
-- Expiry by age in agent/src/queue.rs: what `expire` returns and what it leaves queued.
use renga.Bytes.Equality.{bytes_eq_sym}
use renga.Prelude.{
  ℕ, ◌≡◌, refl, ap, ◌∙◌, inl, inr, Bool, not, List, [], ◌∷◌, filter, Bool-cases, arith, subst, ok,
  resume-eq-ok,
}
use renga.Bytes.{Bytes}
use renga.Queue.Entry.{Entry, listed}
use renga.Queue.Disk.{Answer, DiskQueue}
use renga.Queue.Listing.{
  Distinct, DistinctPaths, Apart, not_at, without-Distinct, listed-without, listed-DistinctPaths,
  filter_head,
}
use renga.Queue.Operations.{drop_for_age, drop_expired, expire, is_expired}
use renga.Queue.Dropping.{Unmoved, unexpired, drop_for_age_lem}

-- The listing without the paths of some of its entries.
abbrev strip : List Entry → List Entry → List Entry
strip [] es = es
strip (x ∷ xs) es = strip xs (filter (not_at x.path) es)

filter-Apart : (p : Entry → Bool) (e : Entry) (es : List Entry) → Apart e es → Apart e (filter p es)
filter-Apart p e [] a = tt
filter-Apart p e (f ∷ es) a = ground (arith, filter-Apart p e es a.1)

strip-cons :
    (xs : List Entry) (e : Entry) (es : List Entry)
    → Apart e xs
    → strip xs (e ∷ es) ≡ e ∷ strip xs es
strip-cons [] e es a = refl
strip-cons (x ∷ xs) e es a =
    let kept : filter (not_at x.path) (e ∷ es) ≡ e ∷ filter (not_at x.path) es =
      ground (arith, bytes_eq_sym e.path x.path) in
    rw kept (strip-cons xs e (filter (not_at x.path) es) a.1)

-- Removing the entries that pass a test leaves those that fail it.
strip-filter :
    (p : Entry → Bool) (es : List Entry)
    → DistinctPaths es
    → strip (filter p es) es ≡ filter (λ e. not (p e)) es
strip-filter p [] d = refl
strip-filter p (e ∷ es) d = elim (Bool-cases (p e)) [
  | inl h ↦ rw h (ap (strip (filter p es)) (filter_head e es d) ∙ strip-filter p es d.1)
  | inr h ↦ rw h (
      strip-cons (filter p es) e es (filter-Apart p e es d.0)
      ∙ ap (λ l. e ∷ l) (strip-filter p es d.1))
]

module _ (is_uuid : Bytes → Bool) (os : ℕ → Answer) where
  drop_expired_lem :
      (xs : List Entry) (q r : DiskQueue)
      → Distinct q.files
      → drop_expired is_uuid os xs q ≡ (ok tt, r)
      → (listed is_uuid r.files ≡ strip xs (listed is_uuid q.files))
        × Distinct r.files
        × Unmoved q r
  unfolding drop_expired
  drop_expired_lem [] q r d h = ground arith
  drop_expired_lem (x ∷ xs) q r d h =
      let (_, s, first, rest) = resume-eq-ok (drop_for_age is_uuid os x q) _ h in
      let dropped = drop_for_age_lem is_uuid os x q s first in
      let d' : Distinct s.files = rw dropped.0 (without-Distinct x.path q.files d) in
      let ih = drop_expired_lem xs s r d' rest in
      (
        ih.0
            ∙ ap (λ fs. strip xs (listed is_uuid fs)) dropped.0
            ∙ ap (strip xs) (listed-without is_uuid x.path q.files),
        ih.1,
        ground arith,
      )

  -- `expire`, when it ends without an error, returns the entries that are not too old, and the
  -- directory then lists just these.
  pub expire-unexpired :
      (now : ℕ) (cs : List Entry) (q r : DiskQueue)
      → Distinct q.files
      → expire is_uuid os (listed is_uuid q.files) now q ≡ (ok cs, r)
      → (cs ≡ unexpired q.limits now (listed is_uuid q.files))
        × (listed is_uuid r.files ≡ unexpired q.limits now (listed is_uuid q.files))
        × Distinct r.files
        × Unmoved q r
  unfolding expire
  expire-unexpired now cs q r d h =
      let (_, s, first, rest) =
        resume-eq-ok
          (drop_expired is_uuid os (filter (is_expired q.limits now) (listed is_uuid q.files)) q) _
          h in
      let dropped = drop_expired_lem _ q s d first in
      let same : s ≡ r = cc in
      let l : listed is_uuid s.files ≡ unexpired q.limits now (listed is_uuid q.files) =
        dropped.0
        ∙ strip-filter (is_expired q.limits now) (listed is_uuid q.files)
            (listed-DistinctPaths is_uuid q.files d) in
      (
        cc rest,
        subst (λ t. listed is_uuid t.files ≡ unexpired q.limits now (listed is_uuid q.files)) same
            l,
        subst (λ t. Distinct t.files) same dropped.1,
        subst (Unmoved q) same dropped.2,
      )

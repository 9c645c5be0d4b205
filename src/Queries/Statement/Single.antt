-- ===== src/Queries/Statement/Single.antt =====
-- What `single_statement` of agent/src/jobs/queries/sql.rs accepts.
use mathlib.Core.List.{append-nil}
use renga.Prelude.{
  ℕ, zero, suc, ◌+◌, ◌≡◌, refl, sym, ap, ◌∙◌, true, Option, none, some, List, [], ◌∷◌, ◌++◌, length,
  take, drop, take-append, take-long, length-append, all, Result, ok, err, ◌⊎◌, inl, inr, arith,
}
use renga.Bytes.{Bytes}
use renga.Queries.Statement.{
  Refusal, Kind, comment, quoted, separator, parameter, space, other, token, ignorable, ended,
  judge, scan, up_to, single_statement,
}
use renga.Queries.Statement.Tokens.{
  tokens, spelled, plain, is_ignorable, spelled-append, spelled-tokens, token-le,
}

-- A round that goes on, after the statement has ended and before.
judge-after :
    (k : Kind) (i e : ℕ)
    → judge k (ended k i (some e)) ≡ ok tt
    → (ignorable k ≡ true) × (ended k i (some e) ≡ some e)
unfolding judge
judge-after comment i e h = (refl, refl)
judge-after quoted i e h = cc
judge-after separator i e h = (refl, refl)
judge-after parameter i e h = cc
judge-after space i e h = (refl, refl)
judge-after other i e h = cc

judge-before :
    (k : Kind) (i : ℕ) (s : Bytes)
    → judge k (ended k i none) ≡ ok tt
    → ((k ≡ separator) × (ended k i none ≡ some i))
      ⊎ ((plain (k, s) ≡ true) × (ended k i none ≡ none))
unfolding judge
judge-before comment i s h = inr (refl, refl)
judge-before quoted i s h = inr (refl, refl)
judge-before separator i s h = inl (refl, refl)
judge-before parameter i s h = cc
judge-before space i s h = inr (refl, refl)
judge-before other i s h = inr (refl, refl)

-- One round that went on.
scan_step :
    (fuel : ℕ) (c : ℕ) (s : Bytes) (i : ℕ) (end : Option ℕ) {r : Option ℕ}
    → scan (suc fuel) (c ∷ s) i end ≡ ok r
    → let (k, n) = token c s in
      (judge k (ended k i end) ≡ ok tt)
      × (scan fuel (drop n (c ∷ s)) (i + n) (ended k i end) ≡ ok r)
unfolding scan
scan_step fuel c s i end h = ground (arith, h)

scan-after :
    (fuel : ℕ) (s : Bytes) (i e : ℕ) {r : Option ℕ}
    → scan fuel s i (some e) ≡ ok r
    → (r ≡ some e) × (all is_ignorable (tokens fuel s) ≡ true)
unfolding tokens
scan-after fuel [] i e h = unfold scan in (cc, refl)
scan-after zero (c ∷ s) i e h = unfold scan in (cc, refl)
scan-after (suc fuel) (c ∷ s) i e h =
    let step = scan_step fuel c s i (some e) h in
    let k = (token c s).0 in
    let n = (token c s).1 in
    let round = judge-after k i e step.0 in
    let rest =
      scan-after fuel (drop n (c ∷ s)) (i + n) e
        (ap (λ end. scan fuel (drop n (c ∷ s)) (i + n) end) (sym round.1) ∙ step.1) in
    (rest.0, rw (round.0, rest.1))

-- What is known of a text that was scanned from place `i`, before any statement ended.
record Split (ts : List (Kind × Bytes)) (i : ℕ) (r : Option ℕ) : Type 0 where
  before : List (Kind × Bytes)
  after : List (Kind × Bytes)
  whole : ts ≡ before ++ after
  plain_before : all plain before ≡ true
  ignored_after : all is_ignorable after ≡ true
  ended_there : ((r ≡ none) × (after ≡ [])) ⊎ (r ≡ some (i + length (spelled before)))

scan-before :
    (fuel : ℕ) (s : Bytes) (i : ℕ) {r : Option ℕ}
    → scan fuel s i none ≡ ok r
    → Split (tokens fuel s) i r
unfolding tokens
scan-before fuel [] i h =
    unfold scan in
    record {
      before = [];
      after = [];
      whole = refl;
      plain_before = refl;
      ignored_after = refl;
      ended_there = inl (cc, refl);
    }
scan-before zero (c ∷ s) i h =
    unfold scan in
    record {
      before = [];
      after = [];
      whole = refl;
      plain_before = refl;
      ignored_after = refl;
      ended_there = inl (cc, refl);
    }
scan-before (suc fuel) (c ∷ s) i {r} h =
    let step = scan_step fuel c s i none h in
    let k = (token c s).0 in
    let n = (token c s).1 in
    let text = take n (c ∷ s) in
    let rest = drop n (c ∷ s) in
    let goes_on = λ (end : Option ℕ) (e : ended k i none ≡ end).
      ap (λ end. scan fuel rest (i + n) end) (sym e) ∙ step.1 in
    elim (judge-before k i text step.0) [
      | inl (sep, e) ↦
          let after = scan-after fuel rest (i + n) i (goes_on (some i) e) in
          record {
            before = [];
            after = (k, text) ∷ tokens fuel rest;
            whole = refl;
            plain_before = refl;
            ignored_after = rw (sep, after.1);
            ended_there = inr (after.0 ∙ ap some (omega arith));
          }
      | inr (p, e) ↦
          let more = scan-before fuel rest (i + n) (goes_on none e) in
          record {
            before = (k, text) ∷ more.before;
            after = more.after;
            whole = ap (λ ts. (k, text) ∷ ts) more.whole;
            plain_before = rw (p, more.plain_before);
            ignored_after = more.ignored_after;
            ended_there = elim more.ended_there [
              | inl done ↦ inl done
              | inr place ↦ inr (
                  place
                  ∙ ap some (
                      omega (
                        arith,
                        length-append text (spelled more.before),
                        take-long n (c ∷ s) (token-le c s),
                      )))
            ];
          }
    ]

-- The text before the end of a statement, out of its tokens.
up_to-Split :
    (s : Bytes) (r : Option ℕ) (ts : List (Kind × Bytes)) (p : Split ts 0 r)
    → spelled ts ≡ s
    → up_to r s ≡ spelled p.before
up_to-Split s r ts p h =
    let parts : s ≡ spelled p.before ++ spelled p.after =
      sym h ∙ ap spelled p.whole ∙ spelled-append p.before p.after in
    elim p.ended_there [
      | inl (e, nothing) ↦ rw e (
          parts ∙ ap (λ ts. spelled p.before ++ spelled ts) nothing ∙ append-nil (spelled p.before))
      | inr e ↦ rw e (
          ap (λ n. take n s) (omega arith)
          ∙ ap (take (length (spelled p.before))) parts
          ∙ take-append (spelled p.before) (spelled p.after))
    ]

-- A text is accepted only if, of its tokens, which are the whole text, those up to some place are
-- neither parameters nor ends of statements and spell the statement that is returned, and all after
-- it are white space, comments and semicolons.
pub single_statement_sound :
    (s t : Bytes)
    → single_statement s ≡ ok t
    → (before after : List (Kind × Bytes)) × (tokens (length s) s ≡ before ++ after)
      × (spelled (before ++ after) ≡ s)
      × (spelled before ≡ t)
      × (all plain before ≡ true)
      × (all is_ignorable after ≡ true)
unfolding single_statement
single_statement_sound s t h = accepted (scan (length s) s 0 none) refl h
  where
    accepted :
        (m : Result (Option ℕ) Refusal)
        → scan (length s) s 0 none ≡ m
        → let r : Result Bytes Refusal = elim m [ err e ↦ err e | ok end ↦ ok (up_to end s) ] in
          r ≡ ok t
          → (before after : List (Kind × Bytes)) × (tokens (length s) s ≡ before ++ after)
            × (spelled (before ++ after) ≡ s)
            × (spelled before ≡ t)
            × (all plain before ≡ true)
            × (all is_ignorable after ≡ true)
    accepted (err e) p q = cc
    accepted (ok r) p q =
        let split = scan-before (length s) s 0 p in
        let whole = spelled-tokens (length s) s (omega arith) in
        let text : up_to r s ≡ t = cc in
        (
          split.before,
          split.after,
          split.whole,
          ap spelled (sym split.whole) ∙ whole,
          sym (up_to-Split s r (tokens (length s) s) split whole) ∙ text,
          split.plain_before,
          split.ignored_after,
        )

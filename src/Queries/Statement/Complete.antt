-- ===== src/Queries/Statement/Complete.antt =====
-- That `single_statement` of agent/src/jobs/queries/sql.rs accepts every single statement.
use renga.Prelude.{
  ◌++◌, ℕ, zero, suc, ◌+◌, ◌≡◌, refl, ap, ◌∙◌, Bool, true, false, ◌&&◌, Option, none, some, List,
  [], ◌∷◌, length, take, drop, all, Result, ok, err, arith,
}
use renga.Bytes.{Bytes}
use renga.Queries.Statement.{
  Refusal, Kind, comment, quoted, separator, parameter, space, other, token, ignorable, ended,
  judge, scan, up_to, single_statement,
}
use renga.Queries.Statement.Single.{single_statement_sound}
use renga.Queries.Statement.Tokens.{spelled, plain, tokens, is_ignorable}

-- The tokens of one statement: no parameter, and after a semicolon nothing but what can be ignored.
abbrev pub is_one_statement : List (Kind × Bytes) → Bool
is_one_statement [] = true
is_one_statement ((separator, _) ∷ ts) = all is_ignorable ts
is_one_statement ((parameter, _) ∷ ts) = false
is_one_statement (_ ∷ ts) = is_one_statement ts

judge-ignorable :
    (k : Kind) (i e : ℕ)
    → ignorable k ≡ true
    → (judge k (ended k i (some e)) ≡ ok tt) × (ended k i (some e) ≡ some e)
unfolding judge
judge-ignorable comment i e h = (refl, refl)
judge-ignorable quoted i e h = cc
judge-ignorable separator i e h = (refl, refl)
judge-ignorable parameter i e h = cc
judge-ignorable space i e h = (refl, refl)
judge-ignorable other i e h = cc

-- One round that goes on.
scan-suc :
    (fuel : ℕ) (c : ℕ) (s : Bytes) (i : ℕ) (end end' : Option ℕ)
    → let (k, n) = token c s in
      judge k (ended k i end) ≡ ok tt
      → ended k i end ≡ end'
      → scan (suc fuel) (c ∷ s) i end ≡ scan fuel (drop n (c ∷ s)) (i + n) end'
unfolding scan
scan-suc fuel c s i end end' goes e =
    rw (goes, scan) (ap (λ m. scan fuel (drop (token c s).1 (c ∷ s)) (i + (token c s).1) m) e)

both : (a b : Bool) → (a && b) ≡ true → (a ≡ true) × (b ≡ true)
both a b h = ground arith

scan-ignorable :
    (fuel : ℕ) (s : Bytes) (i e : ℕ)
    → all is_ignorable (tokens fuel s) ≡ true
    → scan fuel s i (some e) ≡ ok (some e)
unfolding tokens
scan-ignorable fuel [] i e h = unfold scan in refl
scan-ignorable zero (c ∷ s) i e h = unfold scan in refl
scan-ignorable (suc fuel) (c ∷ s) i e h =
    let k = (token c s).0 in
    let n = (token c s).1 in
    let parts = both (ignorable k) (all is_ignorable (tokens fuel (drop n (c ∷ s)))) h in
    let round = judge-ignorable k i e parts.0 in
    scan-suc fuel c s i (some e) (some e) round.0 round.1
    ∙ scan-ignorable fuel (drop n (c ∷ s)) (i + n) e parts.1

-- A round at a token that is known.
abbrev round : ℕ → ℕ → Bytes → ℕ → Kind × ℕ → Result (Option ℕ) Refusal
round fuel c s i (k, n) = elim (judge k (ended k i none)) [
  | err e ↦ err e
  | ok _ ↦ scan fuel (drop n (c ∷ s)) (i + n) (ended k i none)
]

scan_at :
    (fuel c : ℕ) (s : Bytes) (i n : ℕ) (k : Kind)
    → token c s ≡ (k, n)
    → scan (suc fuel) (c ∷ s) i none ≡ round fuel c s i (k, n)
unfolding scan
scan_at fuel c s i n k e = ap (round fuel c s i) e

scan-accepts :
    (fuel : ℕ) (s : Bytes) (i : ℕ)
    → is_one_statement (tokens fuel s) ≡ true
    → (r : Option ℕ) × (scan fuel s i none ≡ ok r)
unfolding tokens judge
scan-accepts fuel [] i h = (none, unfold scan in refl)
scan-accepts zero (c ∷ s) i h = (none, unfold scan in refl)
scan-accepts (suc fuel) (c ∷ s) i h =
    let (k, n) = token c s in go k n refl h (λ p. scan-accepts fuel (drop n (c ∷ s)) (i + n) p)
  where
    go :
        (k : Kind) (n : ℕ)
        → token c s ≡ (k, n)
        → is_one_statement ((k, take n (c ∷ s)) ∷ tokens fuel (drop n (c ∷ s))) ≡ true
        → (is_one_statement (tokens fuel (drop n (c ∷ s))) ≡ true
            → (r : Option ℕ) × (scan fuel (drop n (c ∷ s)) (i + n) none ≡ ok r))
        → (r : Option ℕ) × (scan (suc fuel) (c ∷ s) i none ≡ ok r)
    go separator n e h more = (
      some i,
      rw (scan_at fuel c s i n separator e) (scan-ignorable fuel (drop n (c ∷ s)) (i + n) i h),
    )
    go parameter n e h more = cc
    go comment n e h more = let (r, p) = more h in (r, rw (scan_at fuel c s i n comment e) p)
    go quoted n e h more = let (r, p) = more h in (r, rw (scan_at fuel c s i n quoted e) p)
    go space n e h more = let (r, p) = more h in (r, rw (scan_at fuel c s i n space e) p)
    go other n e h more = let (r, p) = more h in (r, rw (scan_at fuel c s i n other e) p)

-- Every text whose tokens are those of one statement is accepted.
pub single_statement_complete :
    (s : Bytes)
    → is_one_statement (tokens (length s) s) ≡ true
    → (t : Bytes) × (single_statement s ≡ ok t)
unfolding single_statement
single_statement_complete s h =
    let (r, p) = scan-accepts (length s) s 0 h in (up_to r s, rw (p, single_statement))

-- `single_statement` accepts exactly the texts of one statement: whenever the tokens have no parameter
-- and nothing but white space, comments and semicolons after a semicolon, it returns a statement; and
-- whenever it returns one, of the tokens, which are the whole text, those up to some place are
-- neither parameters nor ends of statements and spell the statement that is returned, and all after
-- it are white space, comments and semicolons.
pub single_statement_lem :
    (s : Bytes)
    → (is_one_statement (tokens (length s) s) ≡ true → (t : Bytes) × (single_statement s ≡ ok t))
      × ((t : Bytes)
          → single_statement s ≡ ok t
          → (before after : List (Kind × Bytes)) × (tokens (length s) s ≡ before ++ after)
            × (spelled (before ++ after) ≡ s)
            × (spelled before ≡ t)
            × (all plain before ≡ true)
            × (all is_ignorable after ≡ true))
single_statement_lem s = (single_statement_complete s, λ t. single_statement_sound s t)

-- ===== src/Queries/Sql/Guarded.antt =====
-- What `query.sql` of agent/src/jobs/queries/sql.rs sends to osquery.
use mathlib.Core.List.{append-nil, append_assoc}
use renga.Prelude.{
  ℕ, ◌≡◌, refl, sym, ap, ◌∙◌, Bool, true, false, not, Option, none, some, List, [], ◌∷◌, ◌++◌, any,
  all, All, filter, Bool-cases, if◌then◌else◌, Result, ok, err, resume, ◌⊎◌, inl, inr, arith,
}
use renga.Bytes.{Bytes, bytes_eq}
use renga.Bytes.Equality.{bytes_eq_sound}
use renga.Bytes.Literals.{codes}
use renga.Osquery.Thrift.{no_fields}
use renga.Osquery.Client.{
  Row, Request, Client, OsqueryError, options, query, query_columns, sql_argument,
}
use renga.Bytes.Dictionary.{get}
use renga.Osquery.Client.Sent.{request, options-sent, query-sent, query_columns-sent}
use renga.Queries.Statement.{Refusal, sql}
use renga.Queries.Table.{Json, Table}
use renga.Queries.Sql.{
  denied_tables, disabled_tables, missing_tables, carving_disabled, writes, calls, SqlFailure,
  not_disabled, carving_enabled, Answer, asking, checking, refusing, refuse_unsafe_program,
  refuse_unless_denied_tables_disabled, refuse_unless_carving_disabled, run_statement, or_native,
  answer_with_osquery,
}

-- The daemon's flags let no statement reach what is denied, and the compiled statement only reads.
pub record Allowed (flags : Row) (program : List Row) : Type 0 where
  pub denied : all (λ table. any (bytes_eq table) (disabled_tables flags)) denied_tables ≡ true
  pub carving : get (codes "carver_disable_function") flags ≡ some (codes "true")
  pub reads : any writes program ≡ false
  pub awake : any (calls (codes "sleep")) program ≡ false

all-of-missing :
    {A : Type 0} (p : A → Bool) (xs : List A) → filter (λ x. not (p x)) xs ≡ [] → all p xs ≡ true
all-of-missing p [] h = refl
all-of-missing p (x ∷ xs) h = ground (arith, all-of-missing p xs)

none-missing :
    (tables : List Bytes)
    → let r : Result (Unit {0}) SqlFailure = elim tables [
      | [] ↦ ok tt
      | table ∷ more ↦ err (not_disabled (table ∷ more))
    ] in
      r ≡ ok tt → tables ≡ []
none-missing [] h = refl
none-missing (table ∷ more) h = cc

denied-ok :
    (flags : Row)
    → refuse_unless_denied_tables_disabled flags ≡ ok tt
    → all (λ table. any (bytes_eq table) (disabled_tables flags)) denied_tables ≡ true
unfolding refuse_unless_denied_tables_disabled missing_tables
denied-ok flags h =
    all-of-missing (λ table. any (bytes_eq table) (disabled_tables flags)) denied_tables
      (none-missing (missing_tables flags) h)

carving-ok :
    (flags : Row)
    → refuse_unless_carving_disabled flags ≡ ok tt
    → get (codes "carver_disable_function") flags ≡ some (codes "true")
unfolding refuse_unless_carving_disabled carving_disabled
carving-ok flags h = go (get (codes "carver_disable_function") flags) h
  where
    go :
        (o : Option Bytes)
        → let off : Bool = elim o [ none ↦ false | some v ↦ bytes_eq v (codes "true") ] in
          let r : Result (Unit {0}) SqlFailure = if off then ok tt else err carving_enabled in
          r ≡ ok tt → o ≡ some (codes "true")
    go none h = cc
    go (some v) h = elim (Bool-cases (bytes_eq v (codes "true"))) [
      | inl same ↦ ap some (bytes_eq_sound v (codes "true") same)
      | inr other ↦ absurd (ground (arith, h, other))
    ]

program-ok :
    (program : List Row)
    → refuse_unsafe_program program ≡ ok tt
    → (any writes program ≡ false) × (any (calls (codes "sleep")) program ≡ false)
unfolding refuse_unsafe_program
program-ok program h = ground (arith, h)

-- A request that runs nothing of the text: for the flags, or to have the statement explained.
abbrev pub IsHarmless : Bytes → Request → Type 0
IsHarmless statement r =
    ((r.method ≡ codes "options") × (r.args ≡ no_fields))
    ⊎ ((r.method ≡ codes "query") × (r.args ≡ sql_argument (codes "EXPLAIN " ++ statement)))

-- Or for the columns or the rows of the statement itself.
abbrev pub Runs : Bytes → Request → Type 0
Runs statement r = IsHarmless statement r ⊎ (r.args ≡ sql_argument statement)

module _ (broken : ℕ → Bool) (json : Json) (statement : Bytes) (flags : Row) where
  -- How much of the statement is run from the connection `c`, once the flags are known.
  pub record Run (c c' : Client) : Type 0 where
    pub new : List Request
    pub sent : c'.sent ≡ c.sent ++ new
    pub runs : All (Runs statement) new
    pub guard :
        All (IsHarmless statement) new
        ⊎ ((program : List Row) × ((query broken (codes "EXPLAIN " ++ statement) c).0 ≡ ok program)
            × Allowed flags program)

  check-Run :
      {A B : Type 0} (r : Result A SqlFailure) (f : A → Answer B) (c c' : Client)
      → Run c c'
      → ((a : A) → r ≡ ok a → Run c (f a c').1)
      → Run c (resume (checking r c') f).1
  check-Run (ok a) f c c' h k = k a refl
  check-Run (err e) f c c' h k = h

  answered-Run :
      {A B : Type 0} (p : Result A OsqueryError × Client) (f : A → Answer B) (c : Client)
      → Run c p.1
      → ((a : A) → p.0 ≡ ok a → Run c (f a p.1).1)
      → Run c (resume (asking (λ _. p) c) f).1
  answered-Run (ok a, c') f c h k = k a refl
  answered-Run (err e, c') f c h k = h

  quiet : (c : Client) → Run c c
  quiet c = record { new = []; sent = sym (append-nil c.sent); runs = tt; guard = inl tt }

  -- One more request, of the statement itself or to explain it.
  explained : (c : Client) → Run c (query broken (codes "EXPLAIN " ++ statement) c).1
  explained c = record {
    new = request (codes "query") (sql_argument (codes "EXPLAIN " ++ statement)) c ∷ [];
    sent = query-sent broken (codes "EXPLAIN " ++ statement) c;
    runs = (inl (inr (refl, refl)), tt);
    guard = inl (inr (refl, refl), tt);
  }

  All-append-one :
      {A : Type 0} (P : A → Type 0) (xs : List A) (x : A) → All P xs → P x → All P (xs ++ x ∷ [])
  All-append-one P [] x h p = (p, tt)
  All-append-one P (y ∷ ys) x h p = (h.0, All-append-one P ys x h.1 p)

  ran :
      (c c' c'' : Client) (r : Request) (program : List Row)
      → Run c c'
      → c''.sent ≡ c'.sent ++ r ∷ []
      → r.args ≡ sql_argument statement
      → (query broken (codes "EXPLAIN " ++ statement) c).0 ≡ ok program
      → Allowed flags program
      → Run c c''
  ran c c' c'' r program h sent args e allowed = record {
    new = h.new ++ r ∷ [];
    sent = sent ∙ ap (λ rs. rs ++ r ∷ []) h.sent ∙ append_assoc c.sent h.new (r ∷ []);
    runs = All-append-one (Runs statement) h.new r h.runs (inr args);
    guard = inr (program, e, allowed);
  }

  run_statement-Run : (c : Client) → Run c (run_statement broken json statement flags c).1
  unfolding run_statement
  run_statement-Run c =
      let c₁ = (query broken (codes "EXPLAIN " ++ statement) c).1 in
      let c₂ = (query_columns broken statement c₁).1 in
      check-Run (refuse_unless_denied_tables_disabled flags) _ c c (quiet c) λ _ denied.
        check-Run (refuse_unless_carving_disabled flags) _ c c (quiet c) λ _ carving.
          answered-Run (query broken (codes "EXPLAIN " ++ statement) c) _ c (explained c)
            λ program e. check-Run (refuse_unsafe_program program) _ c c₁ (explained c) λ _ safe.
              let allowed : Allowed flags program = record {
                denied = denied-ok flags denied;
                carving = carving-ok flags carving;
                reads = (program-ok program safe).0;
                awake = (program-ok program safe).1;
              } in
              let columns =
                ran c c₁ c₂ (request (codes "getQueryColumns") (sql_argument statement) c₁) program
                  (explained c) (query_columns-sent broken statement c₁) refl e allowed in
              let rows =
                ran c c₂ (query broken statement c₂).1
                  (request (codes "query") (sql_argument statement) c₂) program columns
                  (query-sent broken statement c₂) refl e allowed in
              answered-Run (query_columns broken statement c₁) _ c columns
                λ _ _. answered-Run (query broken statement c₂) _ c rows λ _ _. rows

-- What was asked about the text, from the connection `c` on.
pub record Guarded (broken : ℕ → Bool) (json : Json) (text : Bytes) (c c' : Client) : Type 0 where
  pub statement : Bytes
  pub accepted : sql text ≡ ok statement
  pub new : List Request
  pub sent : c'.sent ≡ c.sent ++ new
  pub runs : All (Runs statement) new
  pub guard :
      All (IsHarmless statement) new
      ⊎ ((flags : Row) × (program : List Row) × ((options broken c).0 ≡ ok flags)
          × ((query broken (codes "EXPLAIN " ++ statement) (options broken c).1).0 ≡ ok program)
          × Allowed flags program)

after_flags :
    (broken : ℕ → Bool) (json : Json) (text statement : Bytes) (c : Client)
    (p : Result Row OsqueryError × Client)
    → sql text ≡ ok statement
    → options broken c ≡ p
    → Guarded broken json text c (or_native broken json statement p.0 p.1).1
after_flags broken json text statement c (err e, c₁) h o = record {
  statement = statement;
  accepted = h;
  new = request (codes "options") no_fields c ∷ [];
  sent = ap (λ p. p.1.sent) (sym o) ∙ options-sent broken c;
  runs = (inl (inl (refl, refl)), tt);
  guard = inl (inl (refl, refl), tt);
}
after_flags broken json text statement c (ok flags, c₁) h o =
    let run = run_statement-Run broken json statement flags c₁ in
    let asked = request (codes "options") no_fields c in
    record {
      statement = statement;
      accepted = h;
      new = asked ∷ run.new;
      sent =
          run.sent
          ∙ ap (λ rs. rs ++ run.new) (ap (λ p. p.1.sent) (sym o) ∙ options-sent broken c)
          ∙ append_assoc c.sent (asked ∷ []) run.new;
      runs = (inl (inl (refl, refl)), run.runs);
      guard = elim run.guard [
        | inl harmless ↦ inl (inl (refl, refl), harmless)
        | inr (program, e, allowed) ↦ inr (
          flags,
          program,
          ap (λ p. p.0) o,
          ap (λ p. (query broken (codes "EXPLAIN " ++ statement) p.1).0) o ∙ e,
          allowed,
        )
      ];
    }

-- Whatever the daemon answers and however the text looks: nothing is sent unless the text is accepted
-- as one statement; each request that is sent is for the flags, to explain that statement, or for
-- that very statement; and a request that runs the statement, or asks for its columns, is sent only
-- after the daemon said that every denied table and carving are disabled, and that the compiled
-- statement neither writes nor sleeps.
pub answer_with_osquery-Guarded :
    (broken : ℕ → Bool) (json : Json) (text : Bytes) (c : Client)
    → ((answer_with_osquery broken json text c).1 ≡ c)
      ⊎ Guarded broken json text c (answer_with_osquery broken json text c).1
unfolding answer_with_osquery
answer_with_osquery-Guarded broken json text c = go (sql text) refl
  where
    go :
        (r : Result Bytes Refusal)
        → sql text ≡ r
        → let m : Answer (Option Table) = λ c. resume (checking (refusing r) c) λ statement c.
          or_native broken json statement (options broken c).0 (options broken c).1 in
          ((m c).1 ≡ c) ⊎ Guarded broken json text c (m c).1
    go (err e) h = inl refl
    go (ok statement) h = inr (after_flags broken json text statement c (options broken c) h refl)

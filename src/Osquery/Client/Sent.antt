-- ===== src/Osquery/Client/Sent.antt =====
-- What a call of agent/src/osquery/mod.rs sends: one request, however the call ends.
use renga.Prelude.{ℕ, ◌+◌, ◌%◌, ◌≡◌, refl, ap, ◌∙◌, Bool, [], ◌∷◌, ◌++◌, Result, ok, err, resume}
use renga.Bytes.{Bytes}
use renga.Bytes.Literals.{codes}
use renga.Osquery.Words.{i32_mod}
use renga.Osquery.Thrift.{Fields, no_fields}
use renga.Osquery.Client.{
  OsqueryError, Request, Client, write_request, receive, accept, give, call, options, query,
  query_columns, response, sql_argument,
}

resume-state :
    {A B : Type 0} (p : Result A OsqueryError × Client) (f : A → Result B OsqueryError)
    → (resume p (λ a. give (f a))).1 ≡ p.1
resume-state (ok a, c) f = refl
resume-state (err e, c) f = refl

abbrev pub request : Bytes → Fields → Client → Request
request method args c = record { method = method; seqid = (c.seqid + 1) % i32_mod; args = args }

reply-sent :
    (broken : ℕ → Bool) (method : Bytes) (seqid : ℕ) (p : Result Unit OsqueryError × Client)
    → (resume p (λ _ c.
        resume (receive broken c) (λ reply. give (accept broken method seqid reply)))).1.sent
      ≡ p.1.sent
unfolding receive
reply-sent broken method seqid (ok _, c) =
    ap (λ c. c.sent) (resume-state (receive broken c) (accept broken method seqid))
reply-sent broken method seqid (err e, c) = refl

pub call-sent :
    (broken : ℕ → Bool) (method : Bytes) (args : Fields) (c : Client)
    → (call broken method args c).1.sent ≡ c.sent ++ request method args c ∷ []
unfolding call write_request
call-sent broken method args c =
    let seqid = (c.seqid + 1) % i32_mod in
    reply-sent broken method seqid
      (write_request broken method seqid args (record c { seqid = seqid }))

pub options-sent :
    (broken : ℕ → Bool) (c : Client)
    → (options broken c).1.sent ≡ c.sent ++ request (codes "options") no_fields c ∷ []
unfolding options
options-sent broken c =
    ap (λ c. c.sent) (resume-state (call broken (codes "options") no_fields c) _)
    ∙ call-sent broken (codes "options") no_fields c

response-sent :
    (broken : ℕ → Bool) (method sql : Bytes) (c : Client)
    → (response broken method sql c).1.sent ≡ c.sent ++ request method (sql_argument sql) c ∷ []
unfolding response
response-sent broken method sql c =
    ap (λ c. c.sent) (resume-state (call broken method (sql_argument sql) c) _)
    ∙ call-sent broken method (sql_argument sql) c

pub query-sent :
    (broken : ℕ → Bool) (sql : Bytes) (c : Client)
    → (query broken sql c).1.sent ≡ c.sent ++ request (codes "query") (sql_argument sql) c ∷ []
unfolding query
query-sent broken sql c = response-sent broken (codes "query") sql c

pub query_columns-sent :
    (broken : ℕ → Bool) (sql : Bytes) (c : Client)
    → (query_columns broken sql c).1.sent
      ≡ c.sent ++ request (codes "getQueryColumns") (sql_argument sql) c ∷ []
unfolding query_columns
query_columns-sent broken sql c =
    ap (λ c. c.sent) (resume-state (response broken (codes "getQueryColumns") sql c) _)
    ∙ response-sent broken (codes "getQueryColumns") sql c

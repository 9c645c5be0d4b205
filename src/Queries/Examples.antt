-- ===== src/Queries/Examples.antt =====
-- A statement that is accepted, and what the theorems say of it.
use renga.Prelude.{◌≡◌, refl, true, false, [], ◌∷◌, ◌++◌, length, all, some, ok, err, List, ◌⊎◌}
use renga.Bytes.{Bytes}
use renga.Bytes.Literals.{codes}
use renga.Queries.Statement.{
  Kind, single_statement, scan, token, judge, closing, uses_parameters, many_statements,
}
use renga.Queries.Statement.Tokens.{tokens, spelled, plain, is_ignorable}
use renga.Queries.Statement.Complete.{single_statement_lem, is_one_statement}
use renga.Osquery.Client.{Client, new_client}
use renga.Queries.Table.{Json}
use renga.Queries.Sql.{answer_with_osquery, denied_tables}
use renga.Osquery.Client.Answered.{reply_to, answer}
use renga.Osquery.Thrift.{
  Value, Fields, string, struct, map, field, no_fields, entry, no_entries, write_message,
}
use renga.Queries.Sql.Guarded.{answer_with_osquery-Guarded, Guarded}

abbrev json : Json
json = record { text_size = λ text. some (length text); row_size = λ values. some (length values) }

abbrev text : Bytes
text = codes "SELECT ';' FROM t; -- ?"

accepted : single_statement text ≡ ok (codes "SELECT ';' FROM t")
unfolding single_statement scan token judge closing
accepted = refl

second_statement : single_statement (codes "SELECT 1; DELETE") ≡ err many_statements
unfolding single_statement scan token judge closing
second_statement = refl

bound_parameter : single_statement (codes "SELECT $a(')") ≡ err uses_parameters
unfolding single_statement scan token judge closing
bound_parameter = refl

single_statement_lem_example :
    (is_one_statement (tokens (length text) text) ≡ true
      → (t : Bytes) × (single_statement text ≡ ok t))
    × ((t : Bytes)
        → single_statement text ≡ ok t
        → (before after : List (Kind × Bytes)) × (tokens (length text) text ≡ before ++ after)
          × (spelled (before ++ after) ≡ text)
          × (spelled before ≡ t)
          × (all plain before ≡ true)
          × (all is_ignorable after ≡ true))
single_statement_lem_example = single_statement_lem text

one_statement : is_one_statement (tokens (length text) text) ≡ true
unfolding tokens token closing
one_statement = refl

-- A daemon that disables what it should, and explains the statement.
abbrev joined : List Bytes → Bytes
joined [] = []
joined (table ∷ tables) = table ++ 44 ∷ joined tables

abbrev flag : Bytes → Value
flag value = struct (field 1 (string value) no_fields)

abbrev flags : Fields
flags =
    field 0
      (map 11 12 (
        entry (string (codes "disable_tables")) (flag (joined denied_tables))
          (entry (string (codes "carver_disable_function")) (flag (codes "true")) no_entries)))
      no_fields

abbrev connection : Client
connection = new_client (
    write_message (reply_to (codes "options") 1) flags
    ++ write_message (reply_to (codes "query") 2)
        (answer (codes "OK") (((codes "opcode", codes "Init") ∷ []) ∷ [])))

answer_with_osquery-Guarded_example :
    ((answer_with_osquery (λ _. false) json text connection).1 ≡ connection)
    ⊎ Guarded
        (λ _. false)
        json
        text
        connection
        (answer_with_osquery (λ _. false) json text connection).1
answer_with_osquery-Guarded_example = answer_with_osquery-Guarded (λ _. false) json text connection

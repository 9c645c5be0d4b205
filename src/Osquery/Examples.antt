-- ===== src/Osquery/Examples.antt =====
-- A reply of the daemon, as the client's tests have it, and what the theorems say of it.
use renga.Prelude.{
  suc, ◌≤◌, ◌≡◌, refl, true, false, [], ◌∷◌, ◌++◌, length, ok, List, All, ap, arith,
}
use renga.Bytes.{Bytes, bytes_eq, bytes_ltb}
use renga.Bytes.Literals.{codes}
use renga.Osquery.Words.{to_be, write_bytes}
use renga.Smbios.Text.{valid_utf8, character}
use renga.Osquery.Thrift.{
  Fields, bool, i16, i64, string, struct, map, list, no_fields, field, no_entries, entry, no_items,
  item, Header, write_message, read_message, read_fields, read_value, write_value,
}
use renga.Osquery.Thrift.Shape.{depth, encodable}
use renga.Osquery.Thrift.Message.{Sendable, read_message-write_message}
use renga.Osquery.Thrift.Bounded.{read_message-bounded, modest}
use renga.Osquery.Thrift.Consumed.{read_fields_complete}
use renga.Osquery.Client.{Client, Row, query, sql_argument}
use renga.Bytes.Dictionary.{collect, insert}
use renga.Osquery.Client.Answered.{query-answer, reply_to, answer, IsRow, after_call}

abbrev body : Fields
body = field 1 (bool true) (
    field 3 (i16 65236) (
      field 5 (i64 1099511627776) (
        field 7 (string (codes "text")) (
          field 8
            (list 13 (
              item
                (map 11 11 (entry (string (codes "name")) (string (codes "osqueryd")) no_entries))
                no_items))
            no_fields))))

abbrev header : Header
header = record { kind = 2; name = codes "query"; seqid = 7 }

header-Sendable : Sendable header body
unfolding encodable depth write_message write_value valid_utf8 character to_be write_bytes
header-Sendable = record {
  kind = omega arith;
  name = refl;
  seqid = omega arith;
  fields = refl;
  levels = omega arith;
  size = omega arith;
}

read_message-write_message_example :
    read_message (write_message header body ++ 1 ∷ []) ≡ (ok (header, struct body), 1 ∷ [])
read_message-write_message_example = read_message-write_message header body (1 ∷ []) header-Sendable

received : (read_message (write_message header body ++ 1 ∷ [])).0 ≡ ok (header, struct body)
received = ap (λ p. p.0) (read_message-write_message header body (1 ∷ []) header-Sendable)

read_message-bounded_example : (depth (struct body) ≤ 17) × (modest (struct body) ≡ true)
read_message-bounded_example =
    read_message-bounded (write_message header body ++ 1 ∷ []) header (struct body) received

-- A flag and the end of a struct.
abbrev stream : Bytes
stream = 2 ∷ 0 ∷ 1 ∷ 1 ∷ 0 ∷ 9 ∷ []

read_fields_complete_example :
    (read_fields (read_value 3) 20 stream ≡ read_fields (read_value 3) (suc (length stream)) stream)
    × (length (read_fields (read_value 3) 20 stream).1 ≤ length stream)
read_fields_complete_example = read_fields_complete 3 20 stream (omega arith)

abbrev processes : List Row
processes = ((codes "name", codes "init") ∷ (codes "pid", codes "1") ∷ []) ∷ []

processes-IsRow : All IsRow processes
unfolding collect insert bytes_eq bytes_ltb valid_utf8 character
processes-IsRow = ((refl, ((refl, refl), ((refl, refl), tt))), tt)

reply-Sendable : Sendable (reply_to (codes "query") 1) (answer (codes "OK") processes)
unfolding encodable depth write_message write_value valid_utf8 character to_be write_bytes
reply-Sendable = record {
  kind = omega arith;
  name = refl;
  seqid = omega arith;
  fields = refl;
  levels = omega arith;
  size = omega arith;
}

abbrev connection : Client
connection = record {
  seqid = 0;
  sent = [];
  incoming = write_message (reply_to (codes "query") 1) (answer (codes "OK") processes) ++ [];
}

query-answer_example : query (λ _. false) (codes "SELECT name, pid FROM processes") connection ≡ (
  ok processes,
  after_call (codes "query") (sql_argument (codes "SELECT name, pid FROM processes")) [] connection,
)
query-answer_example =
    query-answer (λ _. false) (codes "SELECT name, pid FROM processes") (codes "OK") processes []
      connection refl processes-IsRow reply-Sendable refl

-- ===== src/Osquery/Client/Answered.antt =====
-- What a daemon that keeps to the protocol answers arrives: agent/src/osquery/mod.rs.
use renga.Prelude.{
  ℕ, ◌+◌, ◌%◌, ◌≡◌, refl, ap, ◌∙◌, Bool, true, false, List, [], ◌∷◌, ◌++◌, length, All, ok, arith,
}
use renga.Bytes.{Bytes}
use renga.Bytes.Equality.{bytes_eq_refl}
use renga.Bytes.Literals.{codes}
use renga.Smbios.Text.{valid_utf8}
use renga.Osquery.Lossy.{from_utf8_lossy-valid}
use renga.Osquery.Words.{i32_mod}
use renga.Osquery.Thrift.{
  Value, Fields, Entries, Items, string, i32, struct, map, list, no_fields, field, no_entries,
  entry, no_items, item, Header, as_str, field_of, write_message, read_message,
}
use renga.Osquery.Thrift.Message.{Sendable, read_message-write_message}
use renga.Osquery.Client.{
  Row, Client, cells, row, rows, rows_of, response_rows, check_status, check_code, accept, receive,
  write_request, call, response, query, sql_argument,
}
use renga.Bytes.Dictionary.{collect}

-- The values that osquery sends for rows, and for the answer to a query that succeeded.
abbrev pub row_entries : Row → Entries
row_entries [] = no_entries
row_entries ((k, v) ∷ m) = entry (string k) (string v) (row_entries m)

abbrev pub row_items : List Row → Items
row_items [] = no_items
row_items (r ∷ rs) = item (map 11 11 (row_entries r)) (row_items rs)

abbrev pub status_ok : Bytes → Value
status_ok message = struct (field 1 (i32 0) (field 2 (string message) no_fields))

abbrev pub answer : Bytes → List Row → Fields
answer message rs =
    field 0 (struct (field 1 (status_ok message) (field 2 (list 13 (row_items rs)) no_fields)))
      no_fields

-- A map's pairs, in the order of its keys and without repetitions, all of it UTF-8.
abbrev pub IsRow : Row → Type 0
IsRow r =
    (collect [] r ≡ r)
    × All (λ p. (valid_utf8 (length p.0) p.0 ≡ true) × (valid_utf8 (length p.1) p.1 ≡ true)) r

cells-row_entries :
    (r : Row)
    → All (λ p. (valid_utf8 (length p.0) p.0 ≡ true) × (valid_utf8 (length p.1) p.1 ≡ true)) r
    → cells (row_entries r) ≡ ok r
unfolding cells as_str
cells-row_entries [] h = refl
cells-row_entries ((k, v) ∷ m) h =
    ground
      (arith, from_utf8_lossy-valid k h.0.0, from_utf8_lossy-valid v h.0.1, cells-row_entries m h.1)

rows-row_items : (rs : List Row) → All IsRow rs → rows (row_items rs) ≡ ok rs
unfolding rows row
rows-row_items [] h = refl
rows-row_items (r ∷ rs) h = ground (arith, cells-row_entries r h.0.1, h.0.0, rows-row_items rs h.1)

answer_rows :
    (message : Bytes) (rs : List Row)
    → All IsRow rs
    → response_rows (field_of 0 (struct (answer message rs))) ≡ ok rs
unfolding response_rows field_of check_status check_code rows_of
answer_rows message rs h = rows-row_items rs h

abbrev pub reply_to : Bytes → ℕ → Header
reply_to method seqid = record { kind = 2; name = method; seqid = seqid }

accept-reply_to :
    (broken : ℕ → Bool) (method : Bytes) (seqid : ℕ) (body : Value)
    → accept broken method seqid (reply_to method seqid, body) ≡ ok body
unfolding accept
accept-reply_to broken method seqid body = ground (arith, bytes_eq_refl method)

-- The connection after a call.
abbrev pub after_call : Bytes → Fields → Bytes → Client → Client
after_call method args rest c =
    let seqid = (c.seqid + 1) % i32_mod in
    record {
      seqid = seqid;
      sent = c.sent ++ (record { method = method; seqid = seqid; args = args }) ∷ [];
      incoming = rest;
    }

call-reply :
    (broken : ℕ → Bool) (method : Bytes) (args body : Fields) (rest : Bytes) (c : Client)
    → broken (length c.sent) ≡ false
    → Sendable (reply_to method ((c.seqid + 1) % i32_mod)) body
    → c.incoming ≡ write_message (reply_to method ((c.seqid + 1) % i32_mod)) body ++ rest
    → call broken method args c ≡ (ok (struct body), after_call method args rest c)
unfolding call write_request receive
call-reply broken method args body rest c works sendable stream =
    let seqid = (c.seqid + 1) % i32_mod in
    let read =
      ap read_message stream
      ∙ read_message-write_message (reply_to method seqid) body rest sendable in
    rw (works, read, accept-reply_to broken method seqid (struct body))

-- Where the request can be written, and the daemon's next bytes are a reply to the query, with its
-- method and sequence id, a status of success and rows, the query gives exactly those rows, and the
-- connection is ready for the next call: what follows the reply is still to be read. The conditions
-- are that the reply can be sent at all (it is within 16 MiB, its lists and maps have at most 2^20
-- elements each, it nests no deeper than is read, and its integers are in their widths), and that
-- each row has its columns in the order of their names, none twice, all of it UTF-8.
pub query-answer :
    (broken : ℕ → Bool) (sql message : Bytes) (rs : List Row) (rest : Bytes) (c : Client)
    → broken (length c.sent) ≡ false
    → All IsRow rs
    → Sendable (reply_to (codes "query") ((c.seqid + 1) % i32_mod)) (answer message rs)
    → c.incoming
      ≡ write_message (reply_to (codes "query") ((c.seqid + 1) % i32_mod)) (answer message rs)
        ++ rest
    → query broken sql c ≡ (ok rs, after_call (codes "query") (sql_argument sql) rest c)
unfolding query response
query-answer broken sql message rs rest c works h sendable stream = rw (
  call-reply broken (codes "query") (sql_argument sql) (answer message rs) rest c works sendable
      stream,
  answer_rows message rs h,
)

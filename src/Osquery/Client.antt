-- ===== src/Osquery/Client.antt =====
-- The client of osquery's extension manager: `Client` of agent/src/osquery/mod.rs.
--
-- The daemon is given by the bytes that it sends over the connection, in their order: a read that
-- fails, since the daemon hung up or the deadline passed, is a stream that ends there, for no call
-- succeeds after it. `broken` says which writes fail.
pub mod Answered
pub mod Sent
use renga.Prelude.{
  ℕ, zero, suc, ◌+◌, ◌%◌, ◌^◌, Bool, true, false, ◌&&◌, ◌||◌, not, Option, none, some, List, [],
  ◌∷◌, ◌++◌, ◌==◌, if◌then◌else◌, leb, length, Result, ok, err, Stateful, pure, raise, gets, ◌>>=◌,
  ◌>>◌, modify,
}
use renga.Bytes.{Bytes, bytes_eq, bytes_ltb}
use renga.Bytes.Literals.{codes}
use renga.Bytes.Dictionary.{Dictionary, get, collect}
use renga.Osquery.Words.{ThriftError, i32_mod}
use renga.Osquery.Thrift.{
  Value, Fields, Entries, Items, string, no_fields, field, no_entries, entry, no_items, item,
  Header, field_of, as_i32, as_str, as_list, as_map, read_message,
}

abbrev pub Row : Type 0
Row = Dictionary

pub data Protocol : Type 0 where
  raised : Bytes → Protocol
  unexpected_reply no_status no_code no_response rows_not_list row_not_map not_string no_options
        malformed_option unnamed_column :
      Protocol

pub data OsqueryError : Type 0 where
  io : ThriftError → OsqueryError
  cannot_write : OsqueryError
  protocol : Protocol → OsqueryError
  status : ℕ → Bytes → OsqueryError

-- A request: the method, the sequence id and the arguments.
pub record Request : Type 0 where
  pub method : Bytes
  pub seqid : ℕ
  pub args : Fields

-- `sent` holds every request that was written, or may have been in part.
pub record Client : Type 0 where
  pub seqid : ℕ
  pub sent : List Request
  pub incoming : Bytes

abbrev pub Call : Type 0 → Type 0
Call = Stateful Client OsqueryError

abbrev or_empty : Option Bytes → Bytes
or_empty none = []
or_empty (some s) = s

abbrev pub or_protocol : {A : Type 0} → Protocol → Option A → Result A OsqueryError
or_protocol p none = err (protocol p)
or_protocol p (some a) = ok a

abbrev pub and_then : {A B : Type 0} → Option A → (A → Option B) → Option B
and_then none f = none
and_then (some a) f = f a

abbrev pub zip : {A B : Type 0} → Option A → Option B → Option (A × B)
zip (some a) (some b) = some (a, b)
zip _ _ = none

-- A result that was computed without touching the connection.
abbrev pub give : {A : Type 0} → Result A OsqueryError → Call A
give r c = (r, c)

unfoldable pub text_at : ℕ → Value → Bytes
text_at id v = or_empty (and_then (field_of id v) as_str)

unfoldable pub check_code : Value → Option ℕ → Result (Unit {0}) OsqueryError
check_code s none = err (protocol no_code)
check_code s (some code) = if code == 0 then ok tt else err (status code (text_at 2 s))

unfoldable pub check_status : Option Value → Result (Unit {0}) OsqueryError
check_status none = err (protocol no_status)
check_status (some s) = check_code s (and_then (field_of 1 s) as_i32)

-- The texts of a map's entries.
unfoldable pub cells : Entries → Result Row OsqueryError
cells no_entries = ok []
cells (entry k v es) = elim (zip (as_str k) (as_str v)) [
  | none ↦ err (protocol not_string)
  | some cell ↦ elim (cells es) [ err e ↦ err e | ok more ↦ ok (cell ∷ more) ]
]

unfoldable pub row : Value → Result Row OsqueryError
row v = elim (as_map v) [
  | none ↦ err (protocol row_not_map)
  | some es ↦ elim (cells es) [ err e ↦ err e | ok pairs ↦ ok (collect [] pairs) ]
]

unfoldable pub rows : Items → Result (List Row) OsqueryError
rows no_items = ok []
rows (item v is) = elim (row v) [
  | err e ↦ err e
  | ok r ↦ elim (rows is) [ err e ↦ err e | ok more ↦ ok (r ∷ more) ]
]

unfoldable pub rows_of : Option Value → Result (List Row) OsqueryError
rows_of none = ok []
rows_of (some v) = elim (as_list v) [ none ↦ err (protocol rows_not_list) | some is ↦ rows is ]

-- What an `ExtensionResponse` holds.
unfoldable pub response_rows : Option Value → Result (List Row) OsqueryError
response_rows none = err (protocol no_response)
response_rows (some r) = elim (check_status (field_of 1 r)) [
  | err e ↦ err e
  | ok _ ↦ rows_of (field_of 2 r)
]

-- The flags of an `InternalOptionList`.
unfoldable pub flags : Entries → Result Row OsqueryError
flags no_entries = ok []
flags (entry k v es) = elim (zip (as_str k) (and_then (field_of 1 v) as_str)) [
  | none ↦ err (protocol malformed_option)
  | some flag ↦ elim (flags es) [ err e ↦ err e | ok more ↦ ok (flag ∷ more) ]
]

unfoldable pub options_of : Value → Result Row OsqueryError
options_of body = elim (and_then (field_of 0 body) as_map) [
  | none ↦ err (protocol no_options)
  | some es ↦ elim (flags es) [ err e ↦ err e | ok pairs ↦ ok (collect [] pairs) ]
]

-- Each row is a one-entry map of a column's name to its type.
unfoldable pub column_names : List Row → Result (List Bytes) OsqueryError
column_names [] = ok []
column_names ([] ∷ rs) = err (protocol unnamed_column)
column_names (((name, _) ∷ _) ∷ rs) = elim (column_names rs) [
  | err e ↦ err e
  | ok more ↦ ok (name ∷ more)
]

abbrev pub sql_argument : Bytes → Fields
sql_argument sql = field 1 (string sql) no_fields

module _ (broken : ℕ → Bool) where
  unfoldable pub write_request : Bytes → ℕ → Fields → Call Unit
  write_request method seqid args c = (
    if broken (length c.sent) then err cannot_write else ok tt,
    record c { sent = c.sent ++ (record { method = method; seqid = seqid; args = args }) ∷ [] },
  )

  unfoldable pub receive : Call (Header × Value)
  receive c =
      let (message, left) = read_message c.incoming in
      (elim message [ err e ↦ err (io e) | ok m ↦ ok m ], record c { incoming = left })

  -- 3 is EXCEPTION, and 2 is REPLY.
  unfoldable pub accept : Bytes → ℕ → Header × Value → Result Value OsqueryError
  accept method seqid (header, body) =
      if header.kind == 3
      then err (protocol (raised (text_at 1 body)))
      else if not (header.kind == 2)
          || not (bytes_eq header.name method)
          || not (header.seqid == seqid)
      then err (protocol unexpected_reply)
      else ok body

  unfoldable pub call : Bytes → Fields → Call Value
  call method args = do
    modify (λ c. record c { seqid = (c.seqid + 1) % i32_mod })
    seqid ← gets (λ c. c.seqid)
    write_request method seqid args
    reply ← receive
    give (accept method seqid reply)

  unfoldable pub ping : Call Unit
  ping = do result ← call (codes "ping") no_fields; give (check_status (field_of 0 result))

  unfoldable pub response : Bytes → Bytes → Call (List Row)
  response method sql = do
    result ← call method (sql_argument sql)
    give (response_rows (field_of 0 result))

  unfoldable pub query : Bytes → Call (List Row)
  query sql = response (codes "query") sql

  unfoldable pub query_columns : Bytes → Call (List Bytes)
  query_columns sql = do
    described ← response (codes "getQueryColumns") sql
    give (column_names described)

  unfoldable pub options : Call Row
  options = do result ← call (codes "options") no_fields; give (options_of result)

-- What a check-in reports of osquery.
pub data BackendStatus : Type 0 where
  available : Option Bytes → BackendStatus
  not_permitted not_present : BackendStatus

-- How connecting to the socket ends.
pub data Connected : Type 0 where
  permission_denied absent : Connected
  connected : Bytes → Connected

abbrev pub new_client : Bytes → Client
new_client incoming = record { seqid = 0; sent = []; incoming = incoming }

abbrev first_version : Result (List Row) OsqueryError → Option Bytes
first_version (ok (r ∷ _)) = get (codes "version") r
first_version _ = none

abbrev short : Option Bytes → Option Bytes
short none = none
short (some s) = if not (length s == 0) && leb (length s) 64 then some s else none

module _ (broken : ℕ → Bool) where
  unfoldable pub version_after : Client → Option Bytes
  version_after c =
      short (first_version (query broken (codes "SELECT version FROM osquery_info") c).0)

  unfoldable pub probed : Result (Unit {0}) OsqueryError × Client → BackendStatus
  probed (err _, c) = not_present
  probed (ok _, c) = available (version_after c)

  unfoldable pub probe : Bool → Connected → Option BackendStatus
  probe false socket = none
  probe true permission_denied = some not_permitted
  probe true absent = some not_present
  probe true (connected incoming) = some (probed (ping broken (new_client incoming)))

-- ===== src/Queries/Sql.antt =====
-- `query.sql`, the query whose text comes from the request: agent/src/jobs/queries/sql.rs.
pub mod Guarded
use renga.Prelude.{
  ℕ, ◌+◌, Bool, true, false, ◌&&◌, ◌||◌, not, Option, none, some, List, [], ◌∷◌, ◌++◌, map, any,
  all, filter, ltb, leb, ◌==◌, if◌then◌else◌, length, take, Result, ok, err, Stateful, pure, raise,
  ◌>>=◌, ◌>>◌,
}
use mathlib.Core.List.{reverse}
use renga.Bytes.{Bytes, bytes_eq, split}
use renga.Bytes.Literals.{codes}
use renga.Smbios.Text.{trim, to_ascii_lowercase}
use renga.Osquery.Client.{Row, Client, Call, OsqueryError, options, query, query_columns}
use renga.Bytes.Dictionary.{get}
use renga.Queries.Statement.{Refusal, sql, starts}
use renga.Queries.Table.{Json, Table, table, text_of}

abbrev pub denied_tables : List Bytes
denied_tables =
    codes "ai_agent_skills"
    ∷ codes "augeas"
    ∷ codes "carves"
    ∷ codes "certificates"
    ∷ codes "curl"
    ∷ codes "curl_certificate"
    ∷ codes "deb_package_files"
    ∷ codes "device_file"
    ∷ codes "device_hash"
    ∷ codes "device_partitions"
    ∷ codes "elf_dynamic"
    ∷ codes "elf_info"
    ∷ codes "elf_sections"
    ∷ codes "elf_segments"
    ∷ codes "elf_symbols"
    ∷ codes "extended_attributes"
    ∷ codes "file"
    ∷ codes "hash"
    ∷ codes "homebrew_packages"
    ∷ codes "lxd_images"
    ∷ codes "lxd_instance_config"
    ∷ codes "lxd_instance_devices"
    ∷ codes "lxd_instances"
    ∷ codes "magic"
    ∷ codes "npm_packages"
    ∷ codes "process_envs"
    ∷ codes "process_memory_map"
    ∷ codes "process_namespaces"
    ∷ codes "process_open_files"
    ∷ codes "process_open_sockets"
    ∷ codes "processes"
    ∷ codes "python_packages"
    ∷ codes "sshd_config"
    ∷ codes "ycloud_instance_metadata"
    ∷ codes "yara"
    ∷ codes "yara_file"
    ∷ codes "yara_process"
    ∷ []

unfoldable pub contains : Bytes → Bytes → Bool
contains p [] = starts p []
contains p (c ∷ s) = starts p (c ∷ s) || contains p s

-- A row of `EXPLAIN` that writes: a transaction with a second operand other than 0, or an operation
-- on a virtual table.
unfoldable pub writes : Row → Bool
unfolding get bytes_eq
writes op =
    let opcode = text_of (codes "opcode") [] op in
    bytes_eq opcode (codes "VUpdate")
    || bytes_eq opcode (codes "VCreate")
    || bytes_eq opcode (codes "VDestroy")
    || (bytes_eq opcode (codes "Transaction")
        && not (bytes_eq (text_of (codes "p2") (codes "0") op) (codes "0")))

-- `p4.split('(').next()`
unfoldable pub before_paren : Bytes → Bytes
before_paren [] = []
before_paren (c ∷ s) = if c == 40 then [] else c ∷ before_paren s

unfoldable pub calls : Bytes → Row → Bool
unfolding contains before_paren get bytes_eq trim to_ascii_lowercase
calls name op =
    let opcode = text_of (codes "opcode") [] op in
    (contains (codes "Func") opcode || starts (codes "Agg") opcode)
    && bytes_eq (to_ascii_lowercase (trim (before_paren (text_of (codes "p4") [] op))))
        (to_ascii_lowercase name)

pub data SqlFailure : Type 0 where
  refused : Refusal → SqlFailure
  osquery : OsqueryError → SqlFailure
  not_disabled : List Bytes → SqlFailure
  carving_enabled must_only_read must_not_sleep : SqlFailure

unfoldable pub refuse_unsafe_program : List Row → Result (Unit {0}) SqlFailure
unfolding writes calls
refuse_unsafe_program program =
    if any writes program
    then err must_only_read
    else if any (calls (codes "sleep")) program
    then err must_not_sleep
    else ok tt

-- The bytes that osquery trims from each entry.
abbrev is_flag_space : ℕ → Bool
is_flag_space c = c == 32 || c == 9 || c == 10 || c == 11 || c == 12 || c == 13

unfoldable pub trim_flag_start : Bytes → Bytes
trim_flag_start [] = []
trim_flag_start (c ∷ s) = if is_flag_space c then trim_flag_start s else c ∷ s

unfoldable pub trim_flag : Bytes → Bytes
unfolding trim_flag_start
trim_flag s = reverse (trim_flag_start (reverse (trim_flag_start s)))

abbrev pub entries_of : Option Bytes → List Bytes
entries_of none = []
entries_of (some tables) = map trim_flag (split 44 tables)

unfoldable pub disabled_tables : Row → List Bytes
unfolding get split trim_flag
disabled_tables flags = entries_of (get (codes "disable_tables") flags)

unfoldable pub missing_tables : Row → List Bytes
unfolding disabled_tables bytes_eq
missing_tables flags =
    filter (λ table. not (any (bytes_eq table) (disabled_tables flags))) denied_tables

unfoldable pub refuse_unless_denied_tables_disabled : Row → Result (Unit {0}) SqlFailure
unfolding missing_tables
refuse_unless_denied_tables_disabled flags = elim (missing_tables flags) [
  | [] ↦ ok tt
  | table ∷ more ↦ err (not_disabled (table ∷ more))
]

unfoldable pub carving_disabled : Row → Bool
unfolding get bytes_eq
carving_disabled flags = elim (get (codes "carver_disable_function") flags) [
  | none ↦ false
  | some v ↦ bytes_eq v (codes "true")
]

unfoldable pub refuse_unless_carving_disabled : Row → Result (Unit {0}) SqlFailure
unfolding carving_disabled
refuse_unless_carving_disabled flags = if carving_disabled flags then ok tt else err carving_enabled

abbrev pub Answer : Type 0 → Type 0
Answer = Stateful Client SqlFailure

-- `map_err(osquery_failure)`
abbrev pub asking : {A : Type 0} → Call A → Answer A
asking m c = let (r, c') = m c in (elim r [ err e ↦ err (osquery e) | ok a ↦ ok a ], c')

abbrev pub checking : {A : Type 0} → Result A SqlFailure → Answer A
checking r c = (r, c)

abbrev pub refusing : Result Bytes Refusal → Result Bytes SqlFailure
refusing (ok s) = ok s
refusing (err e) = err (refused e)

module _ (broken : ℕ → Bool) (json : Json) where
  -- After the flags are known.
  unfoldable pub run_statement : Bytes → Row → Answer (Option Table)
  run_statement statement flags = do
    checking (refuse_unless_denied_tables_disabled flags)
    checking (refuse_unless_carving_disabled flags)
    program ← asking (query broken (codes "EXPLAIN " ++ statement))
    checking (refuse_unsafe_program program)
    columns ← asking (query_columns broken statement)
    rows ← asking (query broken statement)
    pure (some (table json columns rows))

  abbrev pub or_native : Bytes → Result Row OsqueryError → Answer (Option Table)
  or_native statement (err e) = pure none
  or_native statement (ok flags) = run_statement statement flags

  unfoldable pub answer_with_osquery : Bytes → Answer (Option Table)
  unfolding run_statement
  answer_with_osquery text = do
    statement ← checking (refusing (sql text))
    flags ← (λ c. let (r, c') = options broken c in (ok r, c'))
    or_native statement flags

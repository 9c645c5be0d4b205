-- ===== src/Queries/Statement.antt =====
-- How the text of `query.sql` is kept to one statement: `sql`, `single_statement`, `first_keyword` and
-- `closing` of agent/src/jobs/queries/sql.rs.
--
-- A place in the text is given by the bytes from there on, beside the count of those before it.
pub mod Tokens
pub mod Single
pub mod Complete
use renga.Prelude.{
  ℕ, zero, suc, ◌+◌, ◌-◌, Bool, true, false, ◌&&◌, ◌||◌, not, Option, none, some, List, [], ◌∷◌,
  ◌++◌, map, ltb, leb, ◌==◌, if◌then◌else◌, length, take, drop, Result, ok, err,
}
use renga.Bytes.{Bytes, bytes_eq}
use renga.Bytes.Literals.{codes}
use renga.Smbios.Text.{trim, between, is_continuation}

pub data Refusal : Type 0 where
  text_too_long blank not_a_select uses_parameters many_statements : Refusal

-- What stands at a place of the text, and how many bytes it takes.
pub data Kind : Type 0 where
  comment quoted separator parameter space other : Kind

abbrev pub starts : Bytes → Bytes → Bool
starts [] s = true
starts (p ∷ ps) [] = false
starts (p ∷ ps) (c ∷ s) = p == c && starts ps s

-- The bytes up to the terminator and past it, or to the end of the text.
unfoldable pub closing : Bytes → Bytes → ℕ
closing terminator [] = 0
closing terminator (c ∷ s) =
    let rest = closing terminator s in
    if starts terminator (c ∷ s) then length terminator else suc rest

abbrev pub is_ascii_whitespace : ℕ → Bool
is_ascii_whitespace c = c == 32 || c == 9 || c == 10 || c == 12 || c == 13

abbrev is_quote : ℕ → Bool
is_quote c = c == 39 || c == 34 || c == 96

abbrev is_parameter : ℕ → Bool
is_parameter c = c == b'?' || c == b':' || c == b'@' || c == b'$' || c == b'#'

-- The arms of the `match` on the next byte.
unfoldable pub token : ℕ → Bytes → Kind × ℕ
token c s =
    if c == b'-' && starts (b'-' ∷ []) s
    then (comment, 2 + closing (10 ∷ []) (drop 1 s))
    else if c == b'/' && starts (b'*' ∷ []) s
    then (comment, 2 + closing (b'*' ∷ b'/' ∷ []) (drop 1 s))
    else if is_quote c
    then (quoted, 1 + closing (c ∷ []) s)
    else if c == b'['
    then (quoted, 1 + closing (b']' ∷ []) s)
    else if c == b';'
    then (separator, 1)
    else if is_parameter c
    then (parameter, 1)
    else if is_ascii_whitespace c
    then (space, 1)
    else (other, 1)

abbrev pub ignorable : Kind → Bool
ignorable comment = true
ignorable separator = true
ignorable space = true
ignorable _ = false

-- Where the statement ends, if it ends here or has ended before.
abbrev pub ended : Kind → ℕ → Option ℕ → Option ℕ
ended separator i none = some i
ended k i end = end

abbrev pub is_second : Kind → Option ℕ → Bool
is_second k none = false
is_second k (some _) = not (ignorable k)

-- What a round does before it goes on.
unfoldable pub judge : Kind → Option ℕ → Result (Unit {0}) Refusal
judge parameter end = err uses_parameters
judge k end = if is_second k end then err many_statements else ok tt

-- The loop of `single_statement`; as many rounds as there are bytes are enough.
unfoldable pub scan : ℕ → Bytes → ℕ → Option ℕ → Result (Option ℕ) Refusal
scan fuel [] i end = ok end
scan zero (c ∷ s) i end = ok end
scan (suc fuel) (c ∷ s) i end =
    let (kind, n) = token c s in
    let end' = ended kind i end in
    elim (judge kind end') [ err e ↦ err e | ok _ ↦ scan fuel (drop n (c ∷ s)) (i + n) end' ]

abbrev pub up_to : Option ℕ → Bytes → Bytes
up_to none s = s
up_to (some end) s = take end s

unfoldable pub single_statement : Bytes → Result Bytes Refusal
single_statement s = elim (scan (length s) s 0 none) [ err e ↦ err e | ok end ↦ ok (up_to end s) ]

-- The statement after leading comments and white space.
unfoldable pub skip_blank : ℕ → Bytes → Bytes
skip_blank zero s = s
skip_blank (suc fuel) [] = []
skip_blank (suc fuel) (c ∷ s) =
    let line = skip_blank fuel (drop (2 + closing (10 ∷ []) (drop 1 s)) (c ∷ s)) in
    let block = skip_blank fuel (drop (2 + closing (b'*' ∷ b'/' ∷ []) (drop 1 s)) (c ∷ s)) in
    let one = skip_blank fuel s in
    if c == b'-' && starts (b'-' ∷ []) s
    then line
    else if c == b'/' && starts (b'*' ∷ []) s
    then block
    else if is_ascii_whitespace c
    then one
    else c ∷ s

abbrev is_alphabetic : ℕ → Bool
is_alphabetic c = between b'a' b'z' c || between b'A' b'Z' c

unfoldable pub word : Bytes → Bytes
word [] = []
word (c ∷ s) = if is_alphabetic c then c ∷ word s else []

unfoldable pub first_keyword : Bytes → Bytes
first_keyword s = word (skip_blank (length s) s)

unfoldable pub to_ascii_uppercase : Bytes → Bytes
to_ascii_uppercase = map (λ c. if between b'a' b'z' c then c - 32 else c)

abbrev pub max_sql : ℕ
max_sql = 4096

-- `chars().count()`
unfoldable pub count_chars : Bytes → ℕ
count_chars [] = 0
count_chars (c ∷ s) = if is_continuation c then count_chars s else suc (count_chars s)

unfoldable pub reads : Bytes → Bool
reads statement =
    let keyword = to_ascii_uppercase (first_keyword statement) in
    bytes_eq keyword (codes "SELECT") || bytes_eq keyword (codes "WITH")

unfoldable pub check_statement : Bytes → Result Bytes Refusal
check_statement [] = err blank
check_statement (c ∷ s) = if reads (c ∷ s) then ok (c ∷ s) else err not_a_select

-- `params.sql`, as the request has it.
unfoldable pub sql : Bytes → Result Bytes Refusal
sql text =
    if ltb max_sql (count_chars text) then err text_too_long else elim (single_statement text) [
      | err e ↦ err e
      | ok statement ↦ check_statement (trim statement)
    ]

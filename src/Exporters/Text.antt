-- ===== src/Exporters/Text.antt =====
-- The reader of the text format: agent/src/exporters/text.rs.
--
-- Numbers are of a type with the constants and the parsing of `f64`, as a parameter. Text is its UTF-8
-- bytes; what the reader looks for is ASCII, so that it is found between characters.
pub mod Within
pub mod Labels
use renga.Prelude.{
  ℕ, zero, suc, ◌+◌, Bool, true, false, ◌&&◌, ◌||◌, not, Option, none, some, List, [], ◌∷◌, ◌++◌,
  all, any, ltb, ◌==◌, if◌then◌else◌, length, Result, ok, err, chain, ensure, ok_or,
}
use renga.Bytes.{Bytes, bytes_eq, split_once}
use renga.Bytes.Literals.{codes}
use renga.Bytes.Dictionary.{Dictionary, insert}
use renga.Smbios.Text.{trim, trim_start, between}

pub record Limits : Type 0 where
  pub max_series : ℕ
  pub max_labels : ℕ
  pub max_samples : ℕ

abbrev pub default_limits : Limits
default_limits = record { max_series = 50000; max_labels = 32; max_samples = 2000 }

pub record Sample (F : Type 0) : Type 0 where
  pub name : Bytes
  pub labels : Dictionary
  pub value : F

pub data LineError : Type 0 where
  no_value invalid_name invalid_value unterminated_labels invalid_label_name not_quoted
        invalid_escape unterminated_value too_many_labels :
      LineError

-- The errors of a line carry its number.
pub data TextError : Type 0 where
  too_many_series too_many_samples : TextError
  at : ℕ → LineError → TextError

abbrev pub is_ascii_alphabetic : ℕ → Bool
is_ascii_alphabetic c = between b'a' b'z' c || between b'A' b'Z' c

abbrev pub starts_name : ℕ → Bool
starts_name c = is_ascii_alphabetic c || c == b'_' || c == b':'

abbrev pub continues_name : ℕ → Bool
continues_name c = is_ascii_alphabetic c || between b'0' b'9' c || c == b'_' || c == b':'

unfoldable pub valid_name : Bytes → Bool
valid_name [] = false
valid_name (c ∷ s) = starts_name c && all continues_name s

abbrev pub is_ascii_whitespace : ℕ → Bool
is_ascii_whitespace c = c == 32 || c == 9 || c == 10 || c == 12 || c == 13

-- `str::lines`, but for a carriage return at the end of a line, which the trimming of it takes off.
unfoldable pub lines : Bytes → List Bytes
lines [] = []
lines (c ∷ s) =
    if c == 10 then [] ∷ lines s else elim (lines s) [ [] ↦ (c ∷ []) ∷ [] | l ∷ ls ↦ (c ∷ l) ∷ ls ]

-- The name, and the rest from the brace or the white space that ends it.
unfoldable pub split_name : Bytes → Option (Bytes × Bytes)
split_name [] = none
split_name (c ∷ s) =
    if c == b'{' || is_ascii_whitespace c
    then some ([], c ∷ s)
    else elim (split_name s) [ none ↦ none | some (name, rest) ↦ some (c ∷ name, rest) ]

-- A label's value up to the closing quote, with its escapes, and what follows the quote.
abbrev pub push : ℕ → Result (Bytes × Bytes) LineError → Result (Bytes × Bytes) LineError
push c (ok (value, rest)) = ok (c ∷ value, rest)
push c (err e) = err e

unfoldable pub quoted : Bytes → Result (Bytes × Bytes) LineError
quoted [] = err unterminated_value
quoted (c ∷ []) =
    if c == 34 then ok ([], []) else if c == 92 then err invalid_escape else err unterminated_value
quoted (c ∷ e ∷ s) =
    let unescaped = quoted s in
    let more = quoted (e ∷ s) in
    if c == 34
    then ok ([], e ∷ s)
    else if c == 92
    then (if e == b'n'
        then push 10 unescaped
        else if e == 92 || e == 34
        then push e unescaped
        else err invalid_escape)
    else push c more

abbrev pub strip : ℕ → Bytes → Option Bytes
strip p [] = none
strip p (c ∷ s) = if c == p then some s else none

abbrev pub without : ℕ → Bytes → Bytes
without p s = elim (strip p s) [ none ↦ s | some rest ↦ rest ]

abbrev pub valid_label_name : Bytes → Bool
valid_label_name name = valid_name name && not (any (λ c. c == b':') name)

-- What stands between the equals sign and the next label.
unfoldable pub label_value : Bytes → Result (Bytes × Bytes) LineError
label_value rest = chain (ok_or (strip 34 (trim_start (length rest) rest)) not_quoted) quoted

abbrev pub after_label : Bytes → Bytes
after_label rest = without b',' (trim_start (length rest) rest)

-- The name of a label, its value, and what follows it.
unfoldable pub label : Bytes → Result (Bytes × Bytes × Bytes) LineError
label rest = chain (ok_or (split_once b'=' rest) unterminated_labels) λ parts.
    chain (ensure (valid_label_name (trim parts.0)) invalid_label_name)
      λ _. chain (label_value parts.1) λ v. ok (trim parts.0, v.0, after_label v.1)

-- The loop of `labels`; each round takes more than a byte, so that as many as there are bytes are
-- enough.
unfoldable pub label_each : ℕ → ℕ → Dictionary → Bytes → Result (Dictionary × Bytes) LineError
label_each zero max_labels m rest = err unterminated_labels
label_each (suc fuel) max_labels m rest =
    let text = trim_start (length rest) rest in
    elim (strip b'}' text) [
      | some after ↦ ok (m, after)
      | none ↦ chain (label text) λ l.
          chain (ensure (not (length m == max_labels)) too_many_labels)
            λ _. label_each fuel max_labels (insert l.0 l.1 m) l.2
    ]

unfoldable pub labels : Bytes → ℕ → Result (Dictionary × Bytes) LineError
labels rest max_labels = label_each (suc (length rest)) max_labels [] rest

-- `split_ascii_whitespace().next()`
unfoldable pub word : Bytes → Bytes
word [] = []
word (c ∷ s) = if is_ascii_whitespace c then [] else c ∷ word s

unfoldable pub skip_whitespace : Bytes → Bytes
skip_whitespace [] = []
skip_whitespace (c ∷ s) = if is_ascii_whitespace c then skip_whitespace s else c ∷ s

unfoldable pub first_word : Bytes → Option Bytes
first_word s = elim (word (skip_whitespace s)) [ [] ↦ none | c ∷ w ↦ some (c ∷ w) ]

abbrev pub labels_of : Bytes → ℕ → Result (Dictionary × Bytes) LineError
labels_of rest max_labels = elim (strip b'{' rest) [
  | none ↦ ok ([], rest)
  | some s ↦ labels s max_labels
]

-- What the program uses of `f64`.
pub record Floats (F : Type 0) : Type 0 where
  pub infinity : F
  pub neg_infinity : F
  pub nan : F
  pub parse_f64 : Bytes → Option F

unfoldable pub parse_value : {F : Type 0} → Floats F → Bytes → Option F
parse_value floats value =
    if bytes_eq value (codes "+Inf")
    then some floats.infinity
    else if bytes_eq value (codes "-Inf")
    then some floats.neg_infinity
    else if bytes_eq value (codes "NaN")
    then some floats.nan
    else floats.parse_f64 value

module _ {F : Type 0} (floats : Floats F) (limits : Limits) (wanted : Bytes → Bool) where
  -- What a line that is a series gives, if its name is wanted.
  unfoldable pub wanted_sample : Bytes → Bytes → Result (Option (Sample F)) LineError
  wanted_sample name rest = chain (labels_of rest limits.max_labels) λ ls.
      chain (ok_or (first_word ls.1) no_value) λ text.
        chain (ok_or (parse_value floats text) invalid_value)
          λ value. ok (some (record { name = name; labels = ls.0; value = value }))

  unfoldable pub sample : Bytes → Bytes → Result (Option (Sample F)) LineError
  sample name rest =
      chain (ensure (valid_name name) invalid_name)
        λ _. if wanted name then wanted_sample name rest else ok none

  unfoldable pub read_line : Bytes → Result (Option (Sample F)) LineError
  read_line line = chain (ok_or (split_name line) no_value) λ parts. sample parts.0 parts.1

  abbrev pub is_skipped : Bytes → Bool
  is_skipped [] = true
  is_skipped (c ∷ s) = c == b'#'

  abbrev pub at_line : {A : Type 0} → ℕ → Result A LineError → Result A TextError
  at_line number (ok a) = ok a
  at_line number (err e) = err (at number e)

  -- Keeps a sample, if there is room for it.
  abbrev pub keep : Option (Sample F) → List (Sample F) → Result (List (Sample F)) TextError
  keep none samples = ok samples
  keep (some s) samples =
      chain (ensure (not (length samples == limits.max_samples)) too_many_samples)
        λ _. ok (samples ++ s ∷ [])

  unfoldable pub read_each :
      ℕ → List Bytes → ℕ → List (Sample F) → Result (List (Sample F)) TextError
  read_each number [] series samples = ok samples
  read_each number (raw ∷ more) series samples = elim (is_skipped (trim raw)) [
    | true ↦ read_each (suc number) more series samples
    | false ↦ chain (ensure (not (ltb limits.max_series (suc series))) too_many_series) λ _.
        chain (at_line number (read_line (trim raw)))
          λ s. chain (keep s samples) λ kept. read_each (suc number) more (suc series) kept
  ]

  unfoldable pub parse : Bytes → Result (List (Sample F)) TextError
  parse text = read_each 1 (lines text) 0 []

-- ===== src/Exporters/Examples.antt =====
-- A scrape as the reader's tests have it, with a wattage in whole watts.
use renga.Prelude.{ℕ, ◌≤◌, ◌≡◌, refl, Bool, true, [], ◌∷◌, ◌++◌, All, length, ok, arith, not}
use renga.Bytes.{Bytes, bytes_eq, parse_u64, split_once}
use renga.Bytes.Literals.{codes}
use renga.Bytes.Dictionary.{Dictionary, insert, collect}
use renga.Smbios.Text.{trim, trim_start, trim_end, is_blank, space}
use renga.Exporters.Text.{
  Sample, Floats, default_limits, parse, parse_value, lines, split_name, valid_name,
  valid_label_name, sample, wanted_sample, read_line, read_each, labels, label_each, label,
  label_value, quoted, first_word, word, skip_whitespace,
}
use renga.Exporters.Text.Within.{parse-AreKept, IsKept, count_series}
use renga.Exporters.Text.Labels.{labels-print_labels, print_labels}

abbrev whole : Floats ℕ
whole = record { infinity = 1; neg_infinity = 2; nan = 3; parse_f64 = parse_u64 }

abbrev wanted : Bytes → Bool
wanted name = not (bytes_eq name (codes "go"))

abbrev text : Bytes
text =
    codes "# HELP w"
    ++ 10 ∷ (codes "w{id=" ++ 34 ∷ (codes "98" ++ 34 ∷ codes "} 151 17" ++ 10 ∷ codes "go 9"))

abbrev watts : Sample ℕ
watts = record { name = codes "w"; labels = (codes "id", codes "98") ∷ []; value = 151 }

parsed : parse whole default_limits wanted text ≡ ok (watts ∷ [])
unfolding parse parse_value lines split_name valid_name sample wanted_sample read_line read_each
    labels label_each label label_value quoted first_word word skip_whitespace split_once bytes_eq
    parse_u64 trim trim_start trim_end is_blank space insert
parsed = refl

parse-AreKept_example :
    (count_series whole default_limits wanted (lines text) ≤ 50000)
    × (length (watts ∷ []) ≤ 2000)
    × All (IsKept whole default_limits wanted) (watts ∷ [])
parse-AreKept_example = parse-AreKept whole default_limits wanted text (watts ∷ []) parsed

-- A value with a line end, a backslash and quotes.
abbrev pairs : Dictionary
pairs = (codes "a", 34 ∷ 92 ∷ 10 ∷ []) ∷ (codes "b", codes "x") ∷ []

labels-print_labels_example :
    labels (print_labels pairs (codes " 1")) 2 ≡ ok (collect [] pairs, codes " 1")
labels-print_labels_example = labels-print_labels pairs 2 (codes " 1") names (omega arith)
  where
    names : All (λ (l : Bytes × Bytes). valid_label_name l.0 ≡ true) pairs
    names = unfold valid_name in (refl, (refl, tt))

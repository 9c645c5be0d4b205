-- ===== src/Smbios/Examples.antt =====
-- A table of two records and the one that ends it.
use renga.Prelude.{suc, ◌≡◌, refl, some, none, [], ◌∷◌, ◌++◌, length, arith}
use renga.Bytes.{Bytes, split}
use renga.Smbios.Table.{Record, first_double, strings_of, parse_record, next, records}
use renga.Smbios.Fields.{parse, parse_version}
use renga.Smbios.Collected.{parse-encode_all, first_system, supplies}
use renga.Smbios.Walk.{records_complete}
use renga.Smbios.Encoding.{records-encode_all, encode, encode_all, WellFormed}

abbrev board : Record
board = record {
  kind = 2;
  formatted = 2 ∷ 5 ∷ 0 ∷ 0 ∷ 9 ∷ [];
  strings = (65 ∷ 66 ∷ []) ∷ (67 ∷ []) ∷ [];
}

abbrev bare : Record
bare = record { kind = 3; formatted = 3 ∷ 4 ∷ 1 ∷ 0 ∷ []; strings = [] }

abbrev end_mark : Bytes
end_mark = 127 ∷ 4 ∷ 2 ∷ 0 ∷ 0 ∷ 0 ∷ []

no_record : parse_record end_mark ≡ none
unfolding parse_record
no_record = refl

board-WellFormed : WellFormed board
board-WellFormed =
    (5, 0 ∷ 0 ∷ 9 ∷ [], refl, refl, omega arith, refl, ((refl, (refl, tt)), ((refl, tt), tt)))

bare-WellFormed : WellFormed bare
bare-WellFormed = (4, 1 ∷ 0 ∷ [], refl, refl, omega arith, refl, tt)

abbrev table : Bytes
table = encode_all (board ∷ bare ∷ []) ++ end_mark

records-encode_all_example : records (suc (length table)) table 0 ≡ board ∷ bare ∷ []
records-encode_all_example =
    records-encode_all (board ∷ bare ∷ []) end_mark (board-WellFormed, (bare-WellFormed, tt))
      no_record

length-table : length table ≡ 23
unfolding encode
length-table = refl

first : next table 0 ≡ some (board, 11)
unfolding next parse_record encode first_double strings_of split
first = refl

records_complete_example : records 40 table 0 ≡ records 24 table 0
records_complete_example =
    records_complete 24 40 0 table (omega (arith, length-table)) (omega arith)

-- A power supply that can give 800 watts, and says so.
abbrev supply : Record
supply = record {
  kind = 39;
  formatted = 39 ∷ 16 ∷ 5 ∷ 0 ∷ 1 ∷ 0 ∷ 1 ∷ 0 ∷ 0 ∷ 0 ∷ 0 ∷ 0 ∷ 32 ∷ 3 ∷ 2 ∷ 0 ∷ [];
  strings = (65 ∷ 66 ∷ []) ∷ [];
}

supply-WellFormed : WellFormed supply
supply-WellFormed = (
  16,
  5 ∷ 0 ∷ 1 ∷ 0 ∷ 1 ∷ 0 ∷ 0 ∷ 0 ∷ 0 ∷ 0 ∷ 32 ∷ 3 ∷ 2 ∷ 0 ∷ [],
  refl,
  refl,
  omega arith,
  refl,
  ((refl, (refl, tt)), tt),
)

same : Bytes → Bytes
same s = s

parse-encode_all_example :
    ((parse same [] (encode_all (board ∷ supply ∷ []) ++ end_mark)).system
      ≡ first_system same (parse_version []) (board ∷ supply ∷ []))
    × ((parse same [] (encode_all (board ∷ supply ∷ []) ++ end_mark)).power_supplies
        ≡ supplies (board ∷ supply ∷ []))
parse-encode_all_example =
    parse-encode_all same [] (board ∷ supply ∷ []) end_mark
      (board-WellFormed, (supply-WellFormed, tt)) no_record

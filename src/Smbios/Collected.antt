-- ===== src/Smbios/Collected.antt =====
-- What `parse` of agent/src/smbios/table.rs collects from the records.
use renga.Prelude.{
  ◌≡◌, refl, ◌∙◌, ap, sym, Option, none, some, List, [], ◌∷◌, ◌++◌, ◌==◌, if◌then◌else◌, length,
  suc, arith, All,
}
use mathlib.Core.List.{append-nil, append_assoc}
use renga.Bytes.{Bytes}
use renga.Smbios.Table.{Record, records, parse_record}
use renga.Smbios.Encoding.{records-encode_all, encode_all, WellFormed}
use renga.Smbios.Fields.{
  Version, parse_version, SystemInformation, PowerSupply, Tables, system_information, power_supply,
  push, take_record, take_each, parse,
}

abbrev also : Option PowerSupply → List PowerSupply → List PowerSupply
also none ps = ps
also (some p) ps = p ∷ ps

-- The power supplies that records of kind 39 describe, in their order.
unfoldable pub supplies : List Record → List PowerSupply
supplies [] = []
supplies (r ∷ rs) =
    let rest = supplies rs in if r.kind == 39 then also (power_supply r) rest else rest

module _ (hyphenated : Bytes → Bytes) (version : Option Version) where
  -- What the first record of kind 1 says.
  unfoldable pub first_system : List Record → Option SystemInformation
  first_system [] = none
  first_system (r ∷ rs) =
      let rest = first_system rs in
      if r.kind == 1 then some (system_information hyphenated r version) else rest

  abbrev or_else : Option SystemInformation → Option SystemInformation → Option SystemInformation
  or_else none o = o
  or_else (some s) o = some s

  or_else-none : (o : Option SystemInformation) → o ≡ or_else o none
  or_else-none none = refl
  or_else-none (some s) = refl

  supplies-push :
      (o : Option PowerSupply) (t : Tables) (ps : List PowerSupply)
      → ((push o t).power_supplies ++ ps ≡ t.power_supplies ++ also o ps)
        × ((push o t).system ≡ t.system)
  supplies-push none t ps = (refl, refl)
  supplies-push (some p) t ps = (append_assoc t.power_supplies (p ∷ []) ps, refl)

  take_record-collected :
      (r : Record) (rs : List Record) (t : Tables)
      → ((take_record hyphenated version r t).power_supplies ++ supplies rs
          ≡ t.power_supplies ++ supplies (r ∷ rs))
        × (or_else (take_record hyphenated version r t).system (first_system rs)
            ≡ or_else t.system (first_system (r ∷ rs)))
  unfolding take_record supplies first_system
  take_record-collected r rs t =
      let pushed = supplies-push (power_supply r) t (supplies rs) in ground (arith, pushed)

  take_each-collected :
      (rs : List Record) (t : Tables)
      → ((take_each hyphenated version rs t).power_supplies ≡ t.power_supplies ++ supplies rs)
        × ((take_each hyphenated version rs t).system ≡ or_else t.system (first_system rs))
  unfolding take_each supplies first_system
  take_each-collected [] t = (sym (append-nil t.power_supplies), or_else-none t.system)
  take_each-collected (r ∷ rs) t =
      let one = take_record-collected r rs t in
      let rest = take_each-collected rs (take_record hyphenated version r t) in
      (rest.0 ∙ one.0, rest.1 ∙ one.1)

parsed_records :
    (hyphenated : Bytes → Bytes) (entry_point table : Bytes) (rs : List Record)
    → records (suc (length table)) table 0 ≡ rs
    → ((parse hyphenated entry_point table).system
        ≡ first_system hyphenated (parse_version entry_point) rs)
      × ((parse hyphenated entry_point table).power_supplies ≡ supplies rs)
unfolding parse
parsed_records hyphenated entry_point table rs h =
    let version = parse_version entry_point in
    let none_yet : Tables = record { system = none; power_supplies = [] } in
    let all =
      take_each-collected hyphenated version (records (suc (length table)) table 0) none_yet in
    (all.1 ∙ ap (first_system hyphenated version) h, all.0 ∙ ap supplies h)

-- From a table in which well-formed records are laid out one after the other, followed by nothing that
-- is a record, `parse` reports what the first record of kind 1 says of the system, and the power
-- supplies that the records of kind 39 describe, all of them in their order, whatever other records
-- there are.
pub parse-encode_all :
    (hyphenated : Bytes → Bytes) (entry_point : Bytes) (rs : List Record) (tail : Bytes)
    → All WellFormed rs
    → parse_record tail ≡ none
    → ((parse hyphenated entry_point (encode_all rs ++ tail)).system
        ≡ first_system hyphenated (parse_version entry_point) rs)
      × ((parse hyphenated entry_point (encode_all rs ++ tail)).power_supplies ≡ supplies rs)
parse-encode_all hyphenated entry_point rs tail a h =
    parsed_records hyphenated entry_point (encode_all rs ++ tail) rs
      (records-encode_all rs tail a h)

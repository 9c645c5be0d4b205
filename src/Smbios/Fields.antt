-- ===== src/Smbios/Fields.antt =====
-- The facts read from the records: agent/src/smbios/table.rs. `Uuid`'s hyphenated printing is the
-- parameter `hyphenated`.
use renga.Prelude.{
  ℕ, zero, suc, ◌+◌, ◌*◌, ◌/◌, ◌%◌, Bool, true, false, ◌&&◌, ◌||◌, not, Option, none, some, List,
  [], ◌∷◌, ◌++◌, ltb, leb, ◌==◌, if◌then◌else◌, length, take, drop, all, get_elem?,
}
use mathlib.Core.List.{reverse}
use renga.Bytes.{Bytes, bytes_eq}
use renga.Smbios.Text.{valid_utf8, normalize_value}
use renga.Smbios.Table.{Record, records}

pub record Version : Type 0 where
  pub major : ℕ
  pub minor : ℕ

abbrev pub starts_with : Bytes → Bytes → Bool
starts_with prefix s = bytes_eq (take (length prefix) s) prefix

abbrev version_at : Bytes → ℕ → ℕ → Option Version
version_at s i j = elim (get_elem? s i) [
  | none ↦ none
  | some major ↦ elim (get_elem? s j) [
    | none ↦ none
    | some minor ↦ some (record { major = major; minor = minor })
  ]
]

-- Linux's corrections of versions that firmware is known to encode wrongly.
unfoldable pub corrected : Version → Version
corrected v =
    if v.major == 2 && (v.minor == 31 || v.minor == 33)
    then record { major = 2; minor = 3 }
    else if v.major == 2 && v.minor == 51
    then record { major = 2; minor = 6 }
    else v

-- "_SM3_", "_SM_" and "_DMI_"
unfoldable pub parse_version : Bytes → Option Version
unfolding corrected
parse_version s =
    if starts_with (b'_' ∷ b'S' ∷ b'M' ∷ b'3' ∷ b'_' ∷ []) s
    then version_at s 7 8
    else if starts_with (b'_' ∷ b'S' ∷ b'M' ∷ b'_' ∷ []) s
    then elim (version_at s 6 7) [ none ↦ none | some v ↦ some (corrected v) ]
    else if starts_with (b'_' ∷ b'D' ∷ b'M' ∷ b'I' ∷ b'_' ∷ []) s
    then elim (get_elem? s 14) [
      | none ↦ none
      | some bcd ↦ some (record { major = bcd / 16; minor = bcd % 16 })
    ]
    else none

pub record SystemInformation : Type 0 where
  pub uuid : Option Bytes
  pub serial_number : Option Bytes

pub data Status : Type 0 where
  status_ok non_critical critical : Status

pub record PowerSupply : Type 0 where
  pub group : Option ℕ
  pub location : Option Bytes
  pub name : Option Bytes
  pub manufacturer : Option Bytes
  pub serial_number : Option Bytes
  pub asset_tag : Option Bytes
  pub model : Option Bytes
  pub revision : Option Bytes
  pub max_power_watts : Option ℕ
  pub hot_replaceable : Option Bool
  pub present : Option Bool
  pub unplugged : Option Bool
  pub status : Option Status

pub record Tables : Type 0 where
  pub system : Option SystemInformation
  pub power_supplies : List PowerSupply

abbrev pub byte : Record → ℕ → Option ℕ
byte r offset = get_elem? r.formatted offset

-- Two bytes, the lower one first.
unfoldable pub word : Record → ℕ → Option ℕ
word r offset = elim (byte r offset) [
  | none ↦ none
  | some low ↦ elim (byte r (offset + 1)) [ none ↦ none | some high ↦ some (low + 256 * high) ]
]

-- At most 255 bytes of valid UTF-8.
unfoldable pub text_of : Bytes → Option Bytes
text_of raw =
    if ltb 255 (length raw)
    then none
    else if valid_utf8 (length raw) raw
    then normalize_value raw
    else none

unfoldable pub string_at : List Bytes → ℕ → Option Bytes
unfolding text_of
string_at strings zero = none
string_at strings (suc index) = elim (get_elem? strings index) [
  | none ↦ none
  | some raw ↦ text_of raw
]

unfoldable pub string : Record → ℕ → Option Bytes
unfolding string_at
string r offset = elim (byte r offset) [ none ↦ none | some index ↦ string_at r.strings index ]

abbrev pub at_least_2_6 : Version → Bool
at_least_2_6 v = ltb 2 v.major || (v.major == 2 && leb 6 v.minor)

-- The first three fields are turned around from version 2.6 on.
unfoldable pub ordered : Version → Bytes → Bytes
ordered v bytes =
    if at_least_2_6 v
    then reverse (take 4 bytes)
      ++ reverse (take 2 (drop 4 bytes))
      ++ reverse (take 2 (drop 6 bytes))
      ++ drop 8 bytes
    else bytes

abbrev pub is_some {ℓ} : {A : Type ℓ} → Option A → Bool
is_some none = false
is_some (some _) = true

abbrev bit : ℕ → ℕ → Bool
bit n c = (c / n) % 2 == 1

abbrev unless : {A : Type 0} → (A → Bool) → Option A → Option A
unless p none = none
unless p (some x) = if p x then none else some x

unfoldable pub status_of : ℕ → Option Status
status_of characteristics =
    let code = (characteristics / 128) % 8 in
    if code == 3
    then some status_ok
    else if code == 4
    then some non_critical
    else if code == 5
    then some critical
    else none

unfoldable pub described : PowerSupply → Bool
described p =
    is_some p.location
    || is_some p.name
    || is_some p.manufacturer
    || is_some p.serial_number
    || is_some p.model
    || is_some p.max_power_watts

unfoldable pub supply_of : Record → ℕ → PowerSupply
unfolding status_of
supply_of r characteristics = record {
  group = unless (λ g. g == 0) (byte r 4);
  location = string r 5;
  name = string r 6;
  manufacturer = string r 7;
  serial_number = string r 8;
  asset_tag = string r 9;
  model = string r 10;
  revision = string r 11;
  max_power_watts = unless (λ w. w == 32768) (word r 12);
  hot_replaceable = some (bit 1 characteristics);
  present = some (bit 2 characteristics);
  unplugged = some (bit 4 characteristics);
  status = status_of characteristics;
}

unfoldable pub power_supply : Record → Option PowerSupply
unfolding supply_of described
power_supply r = if ltb (length r.formatted) 16 then none else elim (word r 14) [
  | none ↦ none
  | some characteristics ↦
      let supply = supply_of r characteristics in if described supply then some supply else none
]

abbrev pub push : Option PowerSupply → Tables → Tables
push none t = t
push (some p) t = record t { power_supplies = t.power_supplies ++ p ∷ [] }

module _ (hyphenated : Bytes → Bytes) where
  unfoldable pub uuid : Bytes → Version → Option Bytes
  unfolding ordered
  uuid bytes v =
      if all (λ b. b == 0) bytes || all (λ b. b == 255) bytes
      then none
      else if length bytes == 16
      then some (hyphenated (ordered v bytes))
      else none

  -- `formatted.get(0x08..0x18)?`
  unfoldable pub system_uuid : Bytes → Version → Option Bytes
  unfolding uuid
  system_uuid formatted v =
      if ltb (length formatted) 24 then none else uuid (take 16 (drop 8 formatted)) v

  unfoldable pub system_information : Record → Option Version → SystemInformation
  unfolding system_uuid
  system_information r version = record {
    uuid = elim version [ none ↦ none | some v ↦ system_uuid r.formatted v ];
    serial_number = string r 7;
  }

  -- The first record of kind 1, and every supply of kind 39.
  unfoldable pub take_record : Option Version → Record → Tables → Tables
  unfolding system_information power_supply
  take_record version r t =
      if r.kind == 1 && not (is_some t.system)
      then record t { system = some (system_information r version) }
      else if r.kind == 39
      then push (power_supply r) t
      else t

  unfoldable pub take_each : Option Version → List Record → Tables → Tables
  unfolding take_record
  take_each version [] t = t
  take_each version (r ∷ rs) t = take_each version rs (take_record version r t)

  unfoldable pub parse : Bytes → Bytes → Tables
  unfolding take_each records parse_version
  parse entry_point table =
      take_each (parse_version entry_point) (records (suc (length table)) table 0)
        (record { system = none; power_supplies = [] })

-- ===== src/Jobs/Catalog.antt =====
-- Capabilities, their keys, the operator's policy and the compiled-in catalog:
-- agent/src/jobs/mod.rs. Names and keys are bytes.
pub mod Keys
pub mod Policy
use renga.Prelude.{
  ℕ, ◌^◌, Bool, true, false, ◌&&◌, ◌||◌, Option, none, some, List, [], ◌∷◌, ◌++◌, ltb, leb, ◌==◌,
  if◌then◌else◌, length, filter, find, any, all, map,
}
use renga.Bytes.{Bytes, bytes_eq, is_digit, parse_u64, padded, split_once, split}
use renga.Jobs.Record.{RetryClass}

pub data RiskClass : Type 0 where
  observe operate interactive : RiskClass

-- The methods of the trait `Capability` but `run`. `overridden_default` is what an implementation
-- that overrides `enabled_by_default` answers; times are in milliseconds.
pub record Capability : Type 0 where
  pub name : Bytes
  pub version : ℕ
  pub risk_class : RiskClass
  pub retry_class : RetryClass
  pub timeout : ℕ
  pub overridden_default : Option Bool

unfoldable pub is_observe : RiskClass → Bool
is_observe observe = true
is_observe operate = false
is_observe interactive = false

unfoldable pub enabled_by_default : Capability → Bool
unfolding is_observe
enabled_by_default c = elim c.overridden_default [ none ↦ is_observe c.risk_class | some b ↦ b ]

pub record CapabilityKey : Type 0 where
  pub name : Bytes
  pub version : ℕ

-- `{}` of a number, without padding.
abbrev pub decimal : ℕ → Bytes
decimal n = padded 1 n

unfoldable pub show_key : CapabilityKey → Bytes
show_key k = k.name ++ b'@' ∷ decimal k.version

unfoldable pub key : Capability → Bytes
key c = c.name ++ b'@' ∷ decimal c.version

unfoldable pub parse_u32 : Bytes → Option ℕ
parse_u32 s = elim (parse_u64 s) [ none ↦ none | some n ↦ if ltb n (2 ^ 32) then some n else none ]

abbrev pub is_lowercase : ℕ → Bool
is_lowercase c = leb b'a' c && leb c b'z'

abbrev pub is_name_byte : ℕ → Bool
is_name_byte c = is_lowercase c || is_digit c || c == b'_'

unfoldable pub valid_segment : Bytes → Bool
valid_segment [] = false
valid_segment (c ∷ cs) = is_lowercase c && all is_name_byte cs

unfoldable pub valid_name : Bytes → Bool
valid_name name =
    let segments = split b'.' name in leb 2 (length segments) && all valid_segment segments

unfoldable pub parse_key : Bytes → Option CapabilityKey
parse_key s = elim (split_once b'@' s) [
  | none ↦ none
  | some (name, raw_version) ↦ elim (parse_u32 raw_version) [
    | none ↦ none
    | some version ↦
        if ltb 0 version && valid_name name && bytes_eq (decimal version) raw_version
        then some (record { name = name; version = version })
        else none
  ]
]

pub data Selector : Type 0 where
  by_name : Bytes → Selector
  by_key : CapabilityKey → Selector

unfoldable pub parse_selector : Bytes → Option Selector
parse_selector entry =
    if any (λ c. c == b'@') entry
    then elim (parse_key entry) [ none ↦ none | some k ↦ some (by_key k) ]
    else if valid_name entry
    then some (by_name entry)
    else none

unfoldable pub matches : Capability → Selector → Bool
matches c (by_name name) = bytes_eq name c.name
matches c (by_key k) = bytes_eq k.name c.name && k.version == c.version

pub record JobPolicy : Type 0 where
  pub enabled : Option (List Selector)

unfoldable pub allows : JobPolicy → Capability → Bool
allows p c = elim p.enabled [
  | none ↦ enabled_by_default c
  | some selectors ↦ any (matches c) selectors
]

unfoldable pub enabled_keys : List Capability → JobPolicy → List Bytes
enabled_keys catalog p = map key (filter (allows p) catalog)

-- Leasing checks the policy again.
unfoldable pub enabled : List Capability → Bytes → JobPolicy → Option Capability
enabled catalog k p = find (λ c. bytes_eq (key c) k && allows p c) catalog

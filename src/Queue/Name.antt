-- ===== src/Queue/Name.antt =====
-- File names of queue entries: `entry_name` and `parse_entry_name` of agent/src/queue.rs.
-- Times are nanoseconds since the Unix epoch. `Uuid::parse_str` is the parameter `is_uuid`.
pub mod RoundTrip
pub mod SortOrder
use renga.Prelude.{
  ℕ, ◌*◌, ◌/◌, ◌^◌, Bool, ◌&&◌, Option, none, some, ◌∷◌, [], ◌++◌, ◌==◌, if◌then◌else◌, length,
}
use renga.Bytes.{Bytes, padded, parse_u64, split_once, strip_suffix}

abbrev pub nanos_per_second : ℕ
nanos_per_second = 10 ^ 9

-- ".json"
abbrev pub entry_suffix : Bytes
entry_suffix = b'.' ∷ b'j' ∷ b's' ∷ b'o' ∷ b'n' ∷ []

-- ".tmp-"
abbrev pub temporary_prefix : Bytes
temporary_prefix = b'.' ∷ b't' ∷ b'm' ∷ b'p' ∷ b'-' ∷ []

unfoldable pub entry_name : ℕ → ℕ → Bytes → Bytes
entry_name sequence queued_at entry_id =
    padded 20 sequence
    ++ b'-' ∷ (padded 12 (queued_at / nanos_per_second) ++ b'-' ∷ (entry_id ++ entry_suffix))

module _ (is_uuid : Bytes → Bool) where
  unfoldable pub parse_fields : Bytes → Bytes → Bytes → Option (ℕ × ℕ)
  parse_fields sequence seconds entry_id =
      if length sequence == 20 && length seconds == 12 && is_uuid entry_id
      then elim (parse_u64 seconds) [
        | none ↦ none
        | some s ↦ elim (parse_u64 sequence) [
          | none ↦ none
          | some q ↦ some (q, s * nanos_per_second)
        ]
      ]
      else none

  unfoldable pub parse_stem : Bytes → Option (ℕ × ℕ)
  unfolding parse_fields
  parse_stem stem = elim (split_once b'-' stem) [
    | none ↦ none
    | some (sequence, rest) ↦ elim (split_once b'-' rest) [
      | none ↦ none
      | some (seconds, entry_id) ↦ parse_fields sequence seconds entry_id
    ]
  ]

  unfoldable pub parse_entry_name : Bytes → Option (ℕ × ℕ)
  unfolding parse_stem
  parse_entry_name name = elim (strip_suffix entry_suffix name) [
    | none ↦ none
    | some stem ↦ parse_stem stem
  ]

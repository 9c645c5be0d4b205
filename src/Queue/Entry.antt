-- ===== src/Queue/Entry.antt =====
-- The data of agent/src/queue.rs: kinds, limits, counters, health, and the entries of a directory
-- in delivery order. Times are nanoseconds since the Unix epoch.
use renga.Prelude.{
  ℕ, ◌-◌, ◌*◌, min, max, Bool, ◌&&◌, ◌||◌, Option, none, some, List, [], ◌∷◌, ltb, ◌==◌,
  if◌then◌else◌, length, filter_map, total,
}
use renga.Bytes.{Bytes, bytes_leb}
use renga.Queue.Name.{parse_entry_name, nanos_per_second}

pub data QueueKind : Type 0 where
  observations telemetry : QueueKind

pub record QueueLimits : Type 0 where
  pub max_entries : ℕ
  pub max_bytes : ℕ
  pub max_age : ℕ

unfoldable pub default_limits : QueueKind → QueueLimits
default_limits observations = record {
  max_entries = 512;
  max_bytes = 64 * 1024 * 1024;
  max_age = 7 * 24 * 60 * 60 * nanos_per_second;
}
default_limits telemetry = record {
  max_entries = 8192;
  max_bytes = 64 * 1024 * 1024;
  max_age = 24 * 60 * 60 * nanos_per_second;
}

pub record QueueCounters : Type 0 where
  pub dropped_for_space : ℕ
  pub expired : ℕ
  pub rejected : ℕ
  pub unreadable : ℕ
  pub dropped_range : Option (ℕ × ℕ)

abbrev pub no_counts : QueueCounters
no_counts = record {
  dropped_for_space = 0;
  expired = 0;
  rejected = 0;
  unreadable = 0;
  dropped_range = none;
}

unfoldable pub note_dropped : QueueCounters → ℕ → QueueCounters
note_dropped c queued_at = record c {
  dropped_range = elim c.dropped_range [
    | none ↦ some (queued_at, queued_at)
    | some (earliest, latest) ↦ some (min earliest queued_at, max latest queued_at)
  ];
}

pub record QueueHealth : Type 0 where
  pub entries : ℕ
  pub bytes : ℕ
  pub oldest_queued_at : Option ℕ
  pub counters : QueueCounters

-- `duration_since` of an earlier time fails, and `unwrap_or_default` makes that zero.
unfoldable pub oldest_age : QueueHealth → ℕ → Option ℕ
oldest_age h now = elim h.oldest_queued_at [ none ↦ none | some t ↦ some (now - t) ]

pub record Entry : Type 0 where
  pub path : Bytes
  pub sequence : ℕ
  pub queued_at : ℕ
  pub bytes : ℕ

unfoldable pub age : Entry → ℕ → ℕ
age e now = now - e.queued_at

-- A directory item; `regular` says that its metadata can be read and that it is a file.
pub record File : Type 0 where
  pub name : Bytes
  pub regular : Bool
  pub modified : ℕ
  pub body : Bytes

-- (left.sequence, &left.path) ≤ (right.sequence, &right.path)
unfoldable pub entry_leb : Entry → Entry → Bool
entry_leb a b = ltb a.sequence b.sequence || (a.sequence == b.sequence && bytes_leb a.path b.path)

unfoldable pub insert : Entry → List Entry → List Entry
insert e [] = e ∷ []
insert e (f ∷ fs) = if entry_leb e f then e ∷ f ∷ fs else f ∷ insert e fs

-- The stable order of `sort_by`.
unfoldable pub sort : List Entry → List Entry
sort [] = []
sort (e ∷ es) = insert e (sort es)

abbrev pub total_bytes : List Entry → ℕ
total_bytes = total (λ e. e.bytes)

module _ (is_uuid : Bytes → Bool) where
  unfoldable pub entry_of : File → Option Entry
  entry_of f = elim (parse_entry_name is_uuid f.name) [
    | none ↦ none
    | some (sequence, queued_at) ↦
        if f.regular
        then some (record {
          path = f.name;
          sequence = sequence;
          queued_at = queued_at;
          bytes = length f.body;
        })
        else none
  ]

  -- What `entries` returns for a directory that can be listed.
  unfoldable pub listed : List File → List Entry
  listed files = sort (filter_map entry_of files)

-- ===== src/Queue/Sequence.antt =====
-- Where `enqueue` of agent/src/queue.rs puts a new entry: sequences.
use renga.Bytes.Equality.{bytes_eq_sound}
use renga.Prelude.{
  ℕ, suc, ◌*◌, ◌/◌, ◌^◌, ◌≤◌, ◌<◌, ◌≡◌, refl, ap, inl, inr, max, Bool, true, false, some, List, [],
  ◌∷◌, length, filter, filter_map, filter_map-cons-none, filter_map-cons-some, All, Bool-cases,
  Option-cases, arith,
}
use renga.Bytes.{Bytes, u64_mod, bytes_eq}
use renga.Queue.Name.{nanos_per_second, entry_name, parse_entry_name}
use renga.Queue.Entry.{QueueLimits, Entry, File, entry_leb, entry_of, listed, total_bytes}
use renga.Queue.Disk.{DiskQueue}
use renga.Queue.Sorting.{All-sort, InOrder}
use renga.Queue.Listing.{not_at}
use renga.Queue.Operations.{fits, next_after}
use renga.Queue.Dropping.{survivors}
use renga.Queue.Name.RoundTrip.{parse_entry_name-entry_name}
use renga.Queue.Writing.{IsNew}

-- The sequence that `enqueue` gives, from the queue's own counter and the entries left.
abbrev pub sequence_for : DiskQueue → List Entry → ℕ
sequence_for q es = max q.next_sequence (next_after es)

abbrev pub new_entry : ℕ → ℕ → Bytes → Bytes → Entry
new_entry sequence now entry_id body = record {
  path = entry_name sequence now entry_id;
  sequence = sequence;
  queued_at = now / nanos_per_second * nanos_per_second;
  bytes = length body;
}

-- Every sequence is below the last 64-bit number.
abbrev pub Countable : List Entry → Type 0
Countable = All (λ e. suc e.sequence < u64_mod)

pub All-filter {κ} :
    (P : Entry → Type κ) (p : Entry → Bool) (es : List Entry) → All P es → All P (filter p es)
All-filter P p [] a = tt
All-filter P p (e ∷ es) a = elim (Bool-cases (p e)) [
  | inl h ↦ rw h (a.0, All-filter P p es a.1)
  | inr h ↦ rw h (All-filter P p es a.1)
]

pub All-survivors {κ} :
    (P : Entry → Type κ) (l : QueueLimits) (size : ℕ) (es : List Entry)
    → All P es
    → All P (survivors l size es)
unfolding survivors
All-survivors P l size [] a = tt
All-survivors P l size (e ∷ es) a =
    elim (Bool-cases (fits l size (length (e ∷ es)) (total_bytes (e ∷ es)))) [
      | inl h ↦ rw h a
      | inr h ↦ rw h (All-survivors P l size es a.1)
    ]

pub next_after-bounds :
    (es : List Entry)
    → InOrder es
    → Countable es
    → All (λ e. e.sequence < next_after es) es × (next_after es < u64_mod)
unfolding next_after entry_leb
next_after-bounds [] o c = (tt, omega arith)
next_after-bounds (e ∷ []) o c = ((omega (arith, c.0), tt), omega arith)
next_after-bounds (e ∷ f ∷ es) o c =
    let (b, l) = next_after-bounds (f ∷ es) o.1 c.1 in
    let h : e.sequence ≤ f.sequence = ground (arith, o.0.0) in ((omega (arith, h, b.0), b), l)

module _ (is_uuid : Bytes → Bool) where
  -- What a listed entry says of its file's name.
  pub NamedBy : Entry → Type 0
  NamedBy e = parse_entry_name is_uuid e.path ≡ some (e.sequence, e.queued_at)

  entry_of-NamedBy : (f : File) (e : Entry) → entry_of is_uuid f ≡ some e → NamedBy e
  unfolding entry_of NamedBy
  entry_of-NamedBy f e h = ground arith

  pub listed-NamedBy : (fs : List File) → All NamedBy (listed is_uuid fs)
  unfolding listed
  listed-NamedBy fs = All-sort NamedBy _ (go fs)
    where
      go : (gs : List File) → All NamedBy (filter_map (entry_of is_uuid) gs)
      go [] = tt
      go (g ∷ gs) = elim (Option-cases (entry_of is_uuid g)) [
        | inl h ↦ rw (filter_map-cons-none (entry_of is_uuid) g gs h) (go gs)
        | inr (e, h) ↦
            rw (filter_map-cons-some (entry_of is_uuid) g gs h) (entry_of-NamedBy g e h, go gs)
      ]

  module _ (sequence now : ℕ) (entry_id body : Bytes) (hq : sequence < u64_mod)
      (ht : now / nanos_per_second < 10 ^ 12) (hid : is_uuid entry_id ≡ true) where
    behind :
        (es : List Entry)
        → All (λ e. e.sequence < sequence) es
        → All (λ e. entry_leb e (new_entry sequence now entry_id body) ≡ true) es
    unfolding entry_leb
    behind [] a = tt
    behind (e ∷ es) a = (ground (arith, a.0), behind es a.1)

    other_name :
        (e : Entry)
        → NamedBy e
        → e.sequence < sequence
        → bytes_eq e.path (entry_name sequence now entry_id) ≡ false
    unfolding NamedBy
    other_name e n h = elim (Bool-cases (bytes_eq e.path (entry_name sequence now entry_id))) [
      | inl same ↦ absurd (
          ground (
            arith,
            ap (parse_entry_name is_uuid) (bytes_eq_sound _ _ same),
            parse_entry_name-entry_name is_uuid sequence now entry_id hq ht hid,
          ))
      | inr h' ↦ h'
    ]

    All-kept :
        (es : List Entry)
        → All NamedBy es
        → All (λ e. e.sequence < sequence) es
        → filter (not_at (entry_name sequence now entry_id)) es ≡ es
    All-kept [] n a = refl
    All-kept (e ∷ es) n a = ground (arith, other_name e n.0 a.0, All-kept es n.1 a.1)

    pub new_entry-IsNew :
        (es : List Entry)
        → All NamedBy es
        → All (λ e. e.sequence < sequence) es
        → IsNew is_uuid
            (entry_name sequence now entry_id)
            body
            now
            (new_entry sequence now entry_id body)
            es
    new_entry-IsNew es n a = record {
      named =
          unfold entry_of in
          ground (arith, parse_entry_name-entry_name is_uuid sequence now entry_id hq ht hid);
      last = behind es a;
      fresh = All-kept es n a;
    }

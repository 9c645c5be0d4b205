-- ===== src/Queries/Bounded.antt =====
-- A list that stays within a result's bounds, and texts cut to theirs: `Bounded` and `clip` of
-- agent/src/jobs/queries/mod.rs.
--
-- `json_size` is the length of what `serde_json` writes for an item, or `none` where it fails. A text
-- is valid UTF-8, as Rust's are, so that each byte that is no continuation starts a character.
use renga.Prelude.{
  ℕ, zero, suc, ◌+◌, ◌*◌, ◌-◌, ◌^◌, ◌≤◌, min, ◌≡◌, refl, Bool, true, false, ◌||◌, Option, none,
  some, List, [], ◌∷◌, ◌++◌, ltb, leb, if◌then◌else◌, length, total, total-append, length-append,
  ◌⊎◌, inl, inr, arith,
}
use renga.Bytes.{Bytes}
use renga.Smbios.Text.{is_continuation}

abbrev pub result_budget_bytes : ℕ
result_budget_bytes = 48 * 1024

abbrev pub usize_max : ℕ
usize_max = 2 ^ 64 - 1

unfoldable pub saturating_add : ℕ → ℕ → ℕ
saturating_add a b = min (a + b) usize_max

-- An item costs its own JSON plus a separating comma.
abbrev pub cost : Option ℕ → ℕ
cost none = usize_max
cost (some n) = n + 1

unfoldable pub count_chars : Bytes → ℕ
count_chars [] = 0
count_chars (b ∷ bs) = if is_continuation b then count_chars bs else suc (count_chars bs)

unfoldable pub clip : Bytes → ℕ → Bytes
clip [] max = []
clip (b ∷ bs) zero = let rest = clip bs 0 in if is_continuation b then b ∷ rest else []
clip (b ∷ bs) (suc max) =
    let rest = clip bs (suc max) in
    let fewer = clip bs max in if is_continuation b then b ∷ rest else b ∷ fewer

module _ (A : Type 0) where
  pub record Bounded : Type 0 where
    pub items : List A
    pub max_items : ℕ
    pub budget : ℕ
    pub bytes : ℕ
    pub truncated : Bool

abbrev pub with_budget : {A : Type 0} → ℕ → ℕ → Bounded A
with_budget max_items budget = record {
  items = [];
  max_items = max_items;
  budget = min budget result_budget_bytes;
  bytes = 0;
  truncated = false;
}

within :
    (count max_items budget sum : ℕ)
    → budget ≤ result_budget_bytes
    → (leb max_items count || ltb budget (min sum usize_max)) ≡ false
    → (suc count ≤ max_items) × (sum ≤ budget)
within count max_items budget sum small e = (ground arith, ground arith)

module _ {A : Type 0} (json_size : A → Option ℕ) where
  unfoldable pub push : A → Bounded A → Bool × Bounded A
  push item b =
      let size = cost (json_size item) in
      if b.truncated
      then (false, b)
      else if leb b.max_items (length b.items) || ltb b.budget (saturating_add b.bytes size)
      then (false, record b { truncated = true })
      else (true, record b { bytes = b.bytes + size; items = b.items ++ item ∷ [] })

  -- The list is within its limits, and `bytes` is what its items cost.
  pub record IsKept (b : Bounded A) : Type 0 where
    pub few : length b.items ≤ b.max_items
    pub counted : b.bytes ≡ total (λ item. cost (json_size item)) b.items
    pub affordable : b.bytes ≤ b.budget
    pub allotted : b.budget ≤ result_budget_bytes

  -- What `push` does, told apart by its answer.
  pub push-IsKept :
      (item : A) (b : Bounded A)
      → IsKept b
      → let p = push item b in
        IsKept p.1
        × (p.1.max_items ≡ b.max_items)
        × (p.1.budget ≡ b.budget)
        × (((p.0 ≡ true) × (p.1.truncated ≡ b.truncated) × (p.1.items ≡ b.items ++ item ∷ []))
            ⊎ ((p.0 ≡ false) × (p.1.truncated ≡ true) × (p.1.items ≡ b.items)))
  unfolding push saturating_add
  push-IsKept item b k =
      go b.truncated
        (leb b.max_items (length b.items) || ltb b.budget (min (b.bytes + size) usize_max)) refl
        refl
    where
      size : ℕ
      size = cost (json_size item)

      more : Bounded A
      more = record b { bytes = b.bytes + size; items = b.items ++ item ∷ [] }

      fits :
          (leb b.max_items (length b.items) || ltb b.budget (min (b.bytes + size) usize_max))
            ≡ false
          → IsKept more
      fits e =
          let (room, cheap) =
            within (length b.items) b.max_items b.budget (b.bytes + size) k.allotted e in
          record {
            few = omega (arith, length-append b.items (item ∷ []));
            counted =
                omega
                  (arith, k.counted, total-append (λ x. cost (json_size x)) b.items (item ∷ []));
            affordable = cheap;
            allotted = k.allotted;
          }

      go :
          (cut full : Bool)
          → b.truncated ≡ cut
          → (leb b.max_items (length b.items) || ltb b.budget (min (b.bytes + size) usize_max))
            ≡ full
          → let p : Bool × Bounded A =
              if cut
              then (false, b)
              else if full
              then (false, record b { truncated = true })
              else (true, more) in
            IsKept p.1
            × (p.1.max_items ≡ b.max_items)
            × (p.1.budget ≡ b.budget)
            × (((p.0 ≡ true) × (p.1.truncated ≡ b.truncated) × (p.1.items ≡ b.items ++ item ∷ []))
                ⊎ ((p.0 ≡ false) × (p.1.truncated ≡ true) × (p.1.items ≡ b.items)))
      go true full e f = (k, refl, refl, inr (refl, e, refl))
      go false true e f = (
        record {
          few = k.few;
          counted = k.counted;
          affordable = k.affordable;
          allotted = k.allotted;
        },
        refl,
        refl,
        inr (refl, refl, refl),
      )
      go false false e f = (fits f, refl, refl, inl (refl, refl, refl))

pub count-clip : (s : Bytes) (max : ℕ) → count_chars (clip s max) ≤ max
unfolding count_chars clip
count-clip [] max = omega arith
count-clip (b ∷ bs) zero = ground (arith, count-clip bs 0)
count-clip (b ∷ bs) (suc max) = ground (arith, count-clip bs (suc max), count-clip bs max)

-- A text that is short enough stays as it is.
pub clip-short : (s : Bytes) (max : ℕ) → count_chars s ≤ max → clip s max ≡ s
unfolding count_chars clip
clip-short [] max h = refl
clip-short (b ∷ bs) zero h = ground (arith, clip-short bs 0)
clip-short (b ∷ bs) (suc max) h = ground (arith, clip-short bs (suc max), clip-short bs max)

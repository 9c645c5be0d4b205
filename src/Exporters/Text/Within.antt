-- ===== src/Exporters/Text/Within.antt =====
-- The limits of the reader of agent/src/exporters/text.rs.
use renga.Prelude.{
  ℕ, zero, suc, ◌+◌, ◌≤◌, ◌≡◌, refl, Bool, true, not, Option, none, some, List, [], ◌∷◌, ◌++◌, All,
  ltb, ◌==◌, subst, ap, ◌∙◌, if◌then◌else◌, length, length-append, Result, ok, err, Bool-cases,
  Option-cases, inl, inr, arith, chain-eq-ok, ensure, ensure-eq-ok, ok_or,
}
use renga.Bytes.{Bytes}
use renga.Bytes.Dictionary.{Dictionary, insert, length-insert}
use renga.Smbios.Text.{trim, trim_start}
use renga.Exporters.Text.{
  Limits, Sample, LineError, too_many_labels, too_many_series, too_many_samples, Floats,
  parse_value, valid_name, lines, strip, label, label_each, labels, labels_of, first_word, sample,
  wanted_sample, split_name, read_line, is_skipped, at_line, keep, read_each, parse, no_value,
  invalid_value, invalid_name,
}

label_each-le :
    (fuel max_labels : ℕ) (m : Dictionary) (rest : Bytes) {r : Dictionary × Bytes}
    → length m ≤ max_labels
    → label_each fuel max_labels m rest ≡ ok r
    → length r.0 ≤ max_labels
unfolding label_each
label_each-le zero max_labels m rest b h = cc
label_each-le (suc fuel) max_labels m rest {r} b h =
    let text = trim_start (length rest) rest in
    elim (Option-cases (strip b'}' text)) [
      | inl open_end ↦
          let named = chain-eq-ok (label text) _ (rw (open_end, label_each) at h) in
          let room =
            chain-eq-ok (ensure (not (length m == max_labels)) too_many_labels) _ named.2 in
          let less = ensure-eq-ok (not (length m == max_labels)) too_many_labels room.1 in
          label_each-le fuel max_labels (insert named.0.0 named.0.1 m) named.0.2
            (ground (arith, length-insert named.0.0 named.0.1 m, less, b)) room.2
      | inr (after, closed) ↦ ground (arith, h, b, closed)
    ]

labels_of-le :
    (rest : Bytes) (max_labels : ℕ) {r : Dictionary × Bytes}
    → labels_of rest max_labels ≡ ok r
    → length r.0 ≤ max_labels
unfolding labels
labels_of-le rest max_labels {r} h = elim (Option-cases (strip b'{' rest)) [
  | inl bare ↦ ground (arith, h, bare)
  | inr (s, braced) ↦
      label_each-le (suc (length s)) max_labels [] s (omega arith)
        (rw (braced, labels_of, labels) at h)
]

module _ {F : Type 0} (floats : Floats F) (limits : Limits) (wanted : Bytes → Bool) where
  -- What is known of a sample that is kept.
  abbrev pub IsKept : Sample F → Type 0
  IsKept s =
      (wanted s.name ≡ true) × (valid_name s.name ≡ true) × (length s.labels ≤ limits.max_labels)

  abbrev AreKept : List (Sample F) → Type 0
  AreKept samples = (length samples ≤ limits.max_samples) × All IsKept samples

  wanted_sample-IsKept :
      (name rest : Bytes) (s : Sample F)
      → wanted_sample floats limits wanted name rest ≡ ok (some s)
      → (s.name ≡ name) × (length s.labels ≤ limits.max_labels)
  unfolding wanted_sample
  wanted_sample-IsKept name rest s h =
      let ls = chain-eq-ok (labels_of rest limits.max_labels) _ h in
      let text = chain-eq-ok (ok_or (first_word ls.0.1) no_value) _ ls.2 in
      let value = chain-eq-ok (ok_or (parse_value floats text.0) invalid_value) _ text.2 in
      let small = labels_of-le rest limits.max_labels ls.1 in
      let made : record { name = name; labels = ls.0.0; value = value.0 } ≡ s =
        ground (arith, value.2) in
      subst (λ (s : Sample F). (s.name ≡ name) × (length s.labels ≤ limits.max_labels)) made
        (refl, small)

  sample-IsKept :
      (name rest : Bytes) (s : Sample F)
      → sample floats limits wanted name rest ≡ ok (some s)
      → IsKept s
  unfolding sample
  sample-IsKept name rest s h =
      let valid = chain-eq-ok (ensure (valid_name name) invalid_name) _ h in
      elim (Bool-cases (wanted name)) [
        | inl yes_wanted ↦
            let kept = wanted_sample-IsKept name rest s (rw yes_wanted at valid.2) in
            (
              ap wanted kept.0 ∙ yes_wanted,
              ap valid_name kept.0 ∙ ensure-eq-ok (valid_name name) invalid_name valid.1,
              kept.1,
            )
        | inr unwanted ↦ absurd (ground (arith, unwanted, valid.2))
      ]

  read_line-IsKept :
      (number : ℕ) (line : Bytes) (s : Sample F)
      → at_line floats limits wanted number (read_line floats limits wanted line) ≡ ok (some s)
      → IsKept s
  unfolding read_line
  read_line-IsKept number line s h = go (read_line floats limits wanted line) refl h
    where
      go :
          (r : Result (Option (Sample F)) LineError)
          → read_line floats limits wanted line ≡ r
          → at_line floats limits wanted number r ≡ ok (some s)
          → IsKept s
      go (err e) p q = cc
      go (ok o) p q =
          let same : o ≡ some s = cc in
          let parts = chain-eq-ok (ok_or (split_name line) no_value) _ (p ∙ ap ok same) in
          sample-IsKept parts.0.0 parts.0.1 s parts.2

  All-append-one :
      {A : Type 0} (P : A → Type 0) (xs : List A) (x : A) → All P xs → P x → All P (xs ++ x ∷ [])
  All-append-one P [] x h p = (p, tt)
  All-append-one P (y ∷ ys) x h p = (h.0, All-append-one P ys x h.1 p)

  keep-AreKept :
      (o : Option (Sample F)) (samples kept : List (Sample F))
      → AreKept samples
      → ((s : Sample F) → o ≡ some s → IsKept s)
      → keep floats limits wanted o samples ≡ ok kept
      → AreKept kept
  keep-AreKept none samples kept k each h =
      let same : samples ≡ kept = ground (arith, h) in subst AreKept same k
  keep-AreKept (some s) samples kept k each h =
      let room =
        chain-eq-ok (ensure (not (length samples == limits.max_samples)) too_many_samples) _ h in
      let less =
        ensure-eq-ok (not (length samples == limits.max_samples)) too_many_samples room.1 in
      let same : samples ++ s ∷ [] ≡ kept = ground (arith, room.2) in
      subst AreKept same (
        ground (arith, length-append samples (s ∷ []), less, k.0),
        All-append-one IsKept samples s k.1 (each s refl),
      )

  -- How many lines are series.
  abbrev pub count_series : List Bytes → ℕ
  count_series [] = 0
  count_series (raw ∷ more) =
      if is_skipped floats limits wanted (trim raw)
      then count_series more
      else suc (count_series more)

  read_each-AreKept :
      (number : ℕ) (ls : List Bytes) (series : ℕ) (samples kept : List (Sample F))
      → AreKept samples
      → series ≤ limits.max_series
      → read_each floats limits wanted number ls series samples ≡ ok kept
      → AreKept kept × (series + count_series ls ≤ limits.max_series)
  unfolding read_each
  read_each-AreKept number [] series samples kept k small h =
      let same : samples ≡ kept = ground (arith, h) in (subst AreKept same k, omega arith)
  read_each-AreKept number (raw ∷ more) series samples kept k small h =
      elim (Bool-cases (is_skipped floats limits wanted (trim raw))) [
        | inl skipped ↦
            let rest =
              read_each-AreKept (suc number) more series samples kept k small
                (rw (skipped, read_each) at h) in
            (rest.0, rw skipped rest.1)
        | inr counted ↦
            let room =
              chain-eq-ok (ensure (not (ltb limits.max_series (suc series))) too_many_series) _
                (rw (counted, read_each) at h) in
            let less =
              ensure-eq-ok (not (ltb limits.max_series (suc series))) too_many_series room.1 in
            let line =
              chain-eq-ok
                (at_line floats limits wanted number (read_line floats limits wanted (trim raw))) _
                room.2 in
            let kept_one = chain-eq-ok (keep floats limits wanted line.0 samples) _ line.2 in
            let each = λ (s : Sample F) (e : line.0 ≡ some s).
              read_line-IsKept number (trim raw) s (line.1 ∙ ap ok e) in
            let rest =
              read_each-AreKept (suc number) more (suc series) kept_one.0 kept
                (keep-AreKept line.0 samples kept_one.0 k each kept_one.1) (ground (arith, less))
                kept_one.2 in
            (rest.0, rw counted (omega (arith, rest.1)))
      ]

-- A scrape that is read is within its limits, whatever the exporter sent: at most `max_series` lines are
-- series, wanted or not, at most `max_samples` samples are kept, and each of them has a name that is
-- valid and wanted, and at most `max_labels` labels.
pub parse-AreKept :
    {F : Type 0} (floats : Floats F) (limits : Limits) (wanted : Bytes → Bool) (text : Bytes)
    (samples : List (Sample F))
    → parse floats limits wanted text ≡ ok samples
    → (count_series floats limits wanted (lines text) ≤ limits.max_series)
      × (length samples ≤ limits.max_samples)
      × All (IsKept floats limits wanted) samples
unfolding parse
parse-AreKept floats limits wanted text samples h =
    let kept =
      read_each-AreKept floats limits wanted 1 (lines text) 0 [] samples (omega arith, tt)
        (omega arith) h in
    (omega (arith, kept.1), kept.0.0, kept.0.1)

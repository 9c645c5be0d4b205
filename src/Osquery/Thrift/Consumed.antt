-- ===== src/Osquery/Thrift/Consumed.antt =====
-- The readers of agent/src/osquery/thrift.rs only move forward, so that the loop over a struct ends.
use renga.Prelude.{
  ℕ, zero, suc, ◌<◌, ◌≤◌, ◌≡◌, refl, ap, Bool, true, false, ◌||◌, ◌==◌, leb, ltb, if◌then◌else◌,
  length, drop, [], ◌∷◌, Result, ok, err, resume, pure, arith,
}
use renga.Bytes.{Bytes}
use renga.Osquery.Words.{
  ThriftError, Reader, read_array, read_int, read_size, read_bytes, max_elements, max_reply_bytes,
  i32_sign,
}
use renga.Osquery.Thrift.{
  Value, field, read_value, read_kind, read_struct, read_map, read_list, read_fields, read_entries,
  read_items,
}

abbrev Shortens : {A : Type 0} → Reader A → Type 0
Shortens m = (s : Bytes) → length (m s).1 ≤ length s

resume-Shortens :
    {A B : Type 0} (n : ℕ) (p : Result A ThriftError × Bytes) (f : A → Reader B)
    → length p.1 ≤ n
    → ((a : A) → Shortens (f a))
    → length (resume p f).1 ≤ n
resume-Shortens n (ok a, s) f h k = omega (arith, k a s)
resume-Shortens n (err e, s) f h k = h

if-Shortens :
    {A : Type 0} (b : Bool) (m n : Reader A)
    → Shortens m
    → Shortens n
    → Shortens (if b then m else n)
if-Shortens true m n h k s = h s
if-Shortens false m n h k s = k s

length-drop-le : (n : ℕ) (s : Bytes) → length (drop n s) ≤ length s
length-drop-le zero s = omega arith
length-drop-le (suc n) [] = omega arith
length-drop-le (suc n) (x ∷ s) = omega (arith, length-drop-le n s)

read_array-Shortens : (n : ℕ) → Shortens (read_array n)
unfolding read_array
read_array-Shortens n s = ground (arith, length-drop-le n s)

read_int-Shortens : (w : ℕ) → Shortens (read_int w)
unfolding read_int
read_int-Shortens w s =
    resume-Shortens (length s) (read_array w s) _ (read_array-Shortens w s) λ _ t. omega arith

read_size-Shortens : Shortens read_size
unfolding read_size
read_size-Shortens s = resume-Shortens (length s) (read_int 4 s) _ (read_int-Shortens 4 s) λ n.
    if-Shortens (leb i32_sign n) _ _ (λ _. omega arith)
      (if-Shortens (leb n max_elements) _ _ (λ _. omega arith) (λ _. omega arith))

read_bytes-Shortens : Shortens read_bytes
unfolding read_bytes
read_bytes-Shortens s = resume-Shortens (length s) (read_int 4 s) _ (read_int-Shortens 4 s) λ n.
    if-Shortens (leb i32_sign n) _ _ (λ _. omega arith)
      (if-Shortens (ltb max_reply_bytes n) _ _ (λ _. omega arith) (read_array-Shortens n))

-- Reading one byte takes it.
read_int-takes : (s : Bytes) (n : ℕ) (t : Bytes) → read_int 1 s ≡ (ok n, t) → length t < length s
unfolding read_int read_array
read_int-takes [] n t h = ground arith
read_int-takes (b ∷ s) n t h = ground arith

resume_agree :
    {A B : Type 0} (p : Result A ThriftError × Bytes) (f g : A → Reader B)
    → ((a : A) (s : Bytes) → p ≡ (ok a, s) → f a s ≡ g a s)
    → resume p f ≡ resume p g
resume_agree (ok a, s) f g h = h a s refl
resume_agree (err e, s) f g h = refl

if_agree :
    {A : Type 0} (b : Bool) (m n k : Reader A) (s : Bytes)
    → n s ≡ k s
    → (if b then m else n) s ≡ (if b then m else k) s
if_agree true m n k s h = refl
if_agree false m n k s h = h

left_by :
    {A : Type 0} (p : Result A ThriftError × Bytes) {a : A} {t : Bytes} {n : ℕ}
    → p ≡ (ok a, t)
    → length p.1 ≤ n
    → length t ≤ n
left_by p e h = omega (arith, ap (λ q. length q.1) e)

module _ (read : ℕ → Reader Value) (shortens : (kind : ℕ) → Shortens (read kind)) where
  read_fields-Shortens : (fuel : ℕ) → Shortens (read_fields read fuel)
  unfolding read_fields
  read_fields-Shortens zero s = omega arith
  read_fields-Shortens (suc fuel) s =
      resume-Shortens (length s) (read_int 1 s) _ (read_int-Shortens 1 s) λ kind.
        if-Shortens (kind == 0) _ _ (λ _. omega arith)
          λ t. resume-Shortens (length t) (read_int 2 t) _ (read_int-Shortens 2 t) λ id u.
            resume-Shortens (length u) (read kind u) _ (shortens kind u) λ v t.
              resume-Shortens (length t) (read_fields read fuel t) _ (read_fields-Shortens fuel t)
                λ fs u. omega arith

  read_entries-Shortens : (key value n : ℕ) → Shortens (read_entries read key value n)
  unfolding read_entries
  read_entries-Shortens key value zero s = omega arith
  read_entries-Shortens key value (suc n) s =
      resume-Shortens (length s) (read key s) _ (shortens key s) λ k t.
        resume-Shortens (length t) (read value t) _ (shortens value t) λ v u.
          resume-Shortens (length u) (read_entries read key value n u) _
            (read_entries-Shortens key value n u) λ es t. omega arith

  read_items-Shortens : (element n : ℕ) → Shortens (read_items read element n)
  unfolding read_items
  read_items-Shortens element zero s = omega arith
  read_items-Shortens element (suc n) s =
      resume-Shortens (length s) (read element s) _ (shortens element s) λ v t.
        resume-Shortens (length t) (read_items read element n t) _ (read_items-Shortens element n t)
          λ is u. omega arith

  read_struct-Shortens : Shortens (read_struct read)
  unfolding read_struct
  read_struct-Shortens s =
      resume-Shortens (length s) (read_fields read (suc (length s)) s) _
        (read_fields-Shortens (suc (length s)) s) λ fs t. omega arith

  read_map-Shortens : Shortens (read_map read)
  unfolding read_map
  read_map-Shortens s = resume-Shortens (length s) (read_int 1 s) _ (read_int-Shortens 1 s) λ key t.
      resume-Shortens (length t) (read_int 1 t) _ (read_int-Shortens 1 t) λ value u.
        resume-Shortens (length u) (read_size u) _ (read_size-Shortens u) λ n t.
          resume-Shortens (length t) (read_entries read key value n t) _
            (read_entries-Shortens key value n t) λ es u. omega arith

  read_list-Shortens : Shortens (read_list read)
  unfolding read_list
  read_list-Shortens s =
      resume-Shortens (length s) (read_int 1 s) _ (read_int-Shortens 1 s) λ element t.
        resume-Shortens (length t) (read_size t) _ (read_size-Shortens t) λ n u.
          resume-Shortens (length u) (read_items read element n u) _
            (read_items-Shortens element n u) λ is t. omega arith

  int-Shortens : (w : ℕ) (f : ℕ → Value) → Shortens (λ s. resume (read_int w s) (λ n. pure (f n)))
  int-Shortens w f s =
      resume-Shortens (length s) (read_int w s) _ (read_int-Shortens w s) λ n t. omega arith

  read_kind-Shortens : (kind : ℕ) → Shortens (read_kind read kind)
  unfolding read_kind
  read_kind-Shortens kind = if-Shortens (kind == 2) _ _ (int-Shortens 1 _) (
      if-Shortens (kind == 3) _ _ (int-Shortens 1 _) (
        if-Shortens (kind == 6) _ _ (int-Shortens 2 _) (
          if-Shortens (kind == 8) _ _ (int-Shortens 4 _) (
            if-Shortens (kind == 10) _ _ (int-Shortens 8 _) (
              if-Shortens (kind == 4) _ _ (int-Shortens 8 _) (
                if-Shortens (kind == 11) _ _ bytes (
                  if-Shortens (kind == 12) _ _ read_struct-Shortens (
                    if-Shortens (kind == 13) _ _ read_map-Shortens (
                      if-Shortens (kind == 15 || kind == 14) _ _ read_list-Shortens
                        (λ s. omega arith))))))))))
    where
      bytes : Shortens (λ s. resume (read_bytes s) (λ b. pure (Value.string b)))
      bytes s =
          resume-Shortens (length s) (read_bytes s) _ (read_bytes-Shortens s) λ b t. omega arith

  -- Rounds beyond the bytes that are left change nothing.
  fields_agree :
      (fuel more : ℕ) (s : Bytes)
      → length s < fuel
      → length s < more
      → read_fields read fuel s ≡ read_fields read more s
  unfolding read_fields
  fields_agree zero more s h k = elim h [ ]
  fields_agree (suc fuel) zero s h k = elim k [ ]
  fields_agree (suc fuel) (suc more) s h k = resume_agree (read_int 1 s) _ _ λ kind t et.
      if_agree (kind == 0) _ _ _ t (
        resume_agree (read_int 2 t) _ _ λ id u eu. resume_agree (read kind u) _ _ λ v r er.
          let taken = read_int-takes s kind t et in
          let id_read = left_by (read_int 2 t) eu (read_int-Shortens 2 t) in
          let value_read = left_by (read kind u) er (shortens kind u) in
          ap (λ p. resume p (λ fs. pure (field id v fs)))
            (fields_agree fuel more r (omega arith) (omega arith)))

read_value-Shortens : (levels kind : ℕ) → Shortens (read_value levels kind)
unfolding read_value
read_value-Shortens zero kind s = omega arith
read_value-Shortens (suc l) kind s =
    read_kind-Shortens (read_value l) (read_value-Shortens l) kind s

-- The loop over a struct ends by itself: any more rounds than there are bytes left give the same
-- result, for fields of any depth, and whatever is read, no more bytes are left than before.
pub read_fields_complete :
    (levels fuel : ℕ) (s : Bytes)
    → length s < fuel
    → (read_fields (read_value levels) fuel s ≡ read_fields (read_value levels) (suc (length s)) s)
      × (length (read_fields (read_value levels) fuel s).1 ≤ length s)
read_fields_complete levels fuel s h =
    let read = read_value levels in
    (
      fields_agree read (read_value-Shortens levels) fuel (suc (length s)) s h (omega arith),
      read_fields-Shortens read (read_value-Shortens levels) fuel s,
    )

-- ===== src/Osquery/Thrift/Bounded.antt =====
-- What agent/src/osquery/thrift.rs reads is bounded, whatever bytes come.
use renga.Prelude.{
  ℕ, zero, suc, ◌/◌, ◌≤◌, ◌≡◌, refl, Bool, true, false, ◌&&◌, ◌||◌, ◌==◌, leb, ltb, if◌then◌else◌,
  length, take, take-long, subst, Result, ok, err, resume, pure, arith,
}
use renga.Bytes.{Bytes}
use renga.Osquery.Words.{
  ThriftError, Reader, read_array, read_int, read_size, read_bytes, max_elements, max_reply_bytes,
  i32_sign,
}
use renga.Osquery.Thrift.{
  Value, Fields, Entries, Items, byte, i16, i32, i64, double, string, struct, map, list, no_fields,
  field, no_entries, entry, no_items, item, count_entries, count_items, Header, max_levels, utf8_or,
  read_value, read_kind, read_struct, read_map, read_list, read_fields, read_entries, read_items,
  read_message, read_header_body,
}
use renga.Osquery.Thrift.Shape.{depth, depth_fields, depth_entries, depth_items}

-- Every container and every string is within the limits.
unfoldable mutual
  pub modest : Value → Bool
  modest (string s) = leb (length s) max_reply_bytes
  modest (struct fs) = modest_fields fs
  modest (map _ _ es) = leb (count_entries es) max_elements && modest_entries es
  modest (list _ is) = leb (count_items is) max_elements && modest_items is
  modest _ = true

  pub modest_fields : Fields → Bool
  modest_fields no_fields = true
  modest_fields (field _ v fs) = modest v && modest_fields fs

  pub modest_entries : Entries → Bool
  modest_entries no_entries = true
  modest_entries (entry k v es) = modest k && modest v && modest_entries es

  pub modest_items : Items → Bool
  modest_items no_items = true
  modest_items (item v is) = modest v && modest_items is

-- What a reader gives, if it gives anything, has the property.
abbrev Given : {A : Type 0} → (A → Type 0) → Result A ThriftError × Bytes → Type 0
Given P (ok a, s) = P a
Given P (err e, s) = Unit

abbrev Gives : {A : Type 0} → (A → Type 0) → Reader A → Type 0
Gives P m = (s : Bytes) → Given P (m s)

resume-Given :
    {A B : Type 0} (Q : A → Type 0) (P : B → Type 0) (p : Result A ThriftError × Bytes)
    (f : A → Reader B)
    → Given Q p
    → ((a : A) → Q a → Gives P (f a))
    → Given P (resume p f)
resume-Given Q P (ok a, s) f q k = k a q s
resume-Given Q P (err e, s) f q k = tt

-- A step of which nothing needs to be known.
then-Given :
    {A B : Type 0} (P : B → Type 0) (p : Result A ThriftError × Bytes) (f : A → Reader B)
    → ((a : A) → Gives P (f a))
    → Given P (resume p f)
then-Given P (ok a, s) f k = k a s
then-Given P (err e, s) f k = tt

if-Given :
    {A : Type 0} (P : A → Type 0) (b : Bool) (m n : Reader A) (s : Bytes)
    → (b ≡ true → Given P (m s))
    → (b ≡ false → Given P (n s))
    → Given P ((if b then m else n) s)
if-Given P true m n s h k = h refl
if-Given P false m n s h k = k refl

read_size-Gives : Gives (λ n. n ≤ max_elements) read_size
unfolding read_size
read_size-Gives s = then-Given _ (read_int 4 s) _ λ n t.
    if-Given _ (leb i32_sign n) _ _ t (λ _. tt)
      λ _. if-Given _ (leb n max_elements) _ _ t (λ h. ground (arith, h)) (λ _. tt)

read_array-Gives : (n m : ℕ) → n ≤ m → Gives (λ t. length t ≤ m) (read_array n)
unfolding read_array
read_array-Gives n m h s = ground (arith, take-long n s)

read_bytes-Gives : Gives (λ s. length s ≤ max_reply_bytes) read_bytes
unfolding read_bytes
read_bytes-Gives s = then-Given _ (read_int 4 s) _ λ n t.
    if-Given _ (leb i32_sign n) _ _ t (λ _. tt)
      λ _.
        if-Given _ (ltb max_reply_bytes n) _ _ t (λ _. tt)
          λ h. read_array-Gives n max_reply_bytes (ground (arith, h)) t

abbrev Within : ℕ → Value → Type 0
Within levels v = (depth v ≤ levels) × (modest v ≡ true)

module _ (read : ℕ → Reader Value) (l : ℕ)
    (within : (kind : ℕ) → Gives (Within l) (read kind)) where
  read_fields-Gives :
      (fuel : ℕ)
      → Gives (λ fs. (depth_fields fs ≤ l) × (modest_fields fs ≡ true)) (read_fields read fuel)
  unfolding read_fields modest depth
  read_fields-Gives zero s = tt
  read_fields-Gives (suc fuel) s = then-Given _ (read_int 1 s) _ λ kind t.
      if-Given _ (kind == 0) _ _ t (λ _. (omega arith, refl))
        λ _. then-Given _ (read_int 2 t) _ λ id u.
          resume-Given (Within l) _ (read kind u) _ (within kind u) λ v w t.
            resume-Given _ _ (read_fields read fuel t) _ (read_fields-Gives fuel t)
              λ fs ws u. ground (arith, w, ws)

  read_entries-Gives :
      (key value n : ℕ)
      → Gives
          (λ es. (count_entries es ≡ n) × (depth_entries es ≤ l) × (modest_entries es ≡ true))
          (read_entries read key value n)
  unfolding read_entries modest depth
  read_entries-Gives key value zero s = (refl, omega arith, refl)
  read_entries-Gives key value (suc n) s =
      resume-Given (Within l) _ (read key s) _ (within key s) λ k wk t.
        resume-Given (Within l) _ (read value t) _ (within value t) λ v wv u.
          resume-Given _ _ (read_entries read key value n u) _ (read_entries-Gives key value n u)
            λ es ws t. ground (arith, wk, wv, ws)

  read_items-Gives :
      (element n : ℕ)
      → Gives
          (λ is. (count_items is ≡ n) × (depth_items is ≤ l) × (modest_items is ≡ true))
          (read_items read element n)
  unfolding read_items modest depth
  read_items-Gives element zero s = (refl, omega arith, refl)
  read_items-Gives element (suc n) s =
      resume-Given (Within l) _ (read element s) _ (within element s) λ v w t.
        resume-Given _ _ (read_items read element n t) _ (read_items-Gives element n t)
          λ is ws u. ground (arith, w, ws)

  read_struct-Gives : Gives (Within (suc l)) (read_struct read)
  unfolding read_struct modest depth
  read_struct-Gives s =
      resume-Given _ _ (read_fields read (suc (length s)) s) _
        (read_fields-Gives (suc (length s)) s) λ fs w t. ground (arith, w)

  read_map-Gives : Gives (Within (suc l)) (read_map read)
  unfolding read_map modest depth
  read_map-Gives s = then-Given _ (read_int 1 s) _ λ key t. then-Given _ (read_int 1 t) _ λ value u.
      resume-Given _ _ (read_size u) _ (read_size-Gives u) λ n small t.
        resume-Given _ _ (read_entries read key value n t) _ (read_entries-Gives key value n t)
          λ es w u. ground (arith, w, small)

  read_list-Gives : Gives (Within (suc l)) (read_list read)
  unfolding read_list modest depth
  read_list-Gives s = then-Given _ (read_int 1 s) _ λ element t.
      resume-Given _ _ (read_size t) _ (read_size-Gives t) λ n small u.
        resume-Given _ _ (read_items read element n u) _ (read_items-Gives element n u)
          λ is w t. ground (arith, w, small)

  -- A value that holds no others.
  int-Gives :
      (w : ℕ) (f : ℕ → Value)
      → ((n : ℕ) → Within (suc l) (f n))
      → Gives (Within (suc l)) (λ s. resume (read_int w s) (λ n. pure (f n)))
  int-Gives w f h s = then-Given _ (read_int w s) _ λ n t. h n

  string-Gives : Gives (Within (suc l)) (λ s. resume (read_bytes s) (λ bytes. pure (string bytes)))
  unfolding modest depth
  string-Gives s =
      resume-Given _ _ (read_bytes s) _ (read_bytes-Gives s) λ bytes h t. ground (arith, h)

  read_kind-Gives : (kind : ℕ) → Gives (Within (suc l)) (read_kind read kind)
  unfolding read_kind modest depth
  read_kind-Gives kind s =
      if-Given _ (kind == 2) _ _ s (λ _. int-Gives 1 _ (λ n. (omega arith, refl)) s)
        λ _.
          if-Given _ (kind == 3) _ _ s (λ _. int-Gives 1 byte (λ n. (omega arith, refl)) s)
            λ _.
              if-Given _ (kind == 6) _ _ s (λ _. int-Gives 2 i16 (λ n. (omega arith, refl)) s)
                λ _.
                  if-Given _ (kind == 8) _ _ s (λ _. int-Gives 4 i32 (λ n. (omega arith, refl)) s)
                    λ _.
                      if-Given _ (kind == 10) _ _ s
                        (λ _. int-Gives 8 i64 (λ n. (omega arith, refl)) s)
                        λ _.
                          if-Given _ (kind == 4) _ _ s
                            (λ _. int-Gives 8 double (λ n. (omega arith, refl)) s)
                            λ _.
                              if-Given _ (kind == 11) _ _ s (λ _. string-Gives s)
                                λ _.
                                  if-Given _ (kind == 12) _ _ s (λ _. read_struct-Gives s)
                                    λ _.
                                      if-Given _ (kind == 13) _ _ s (λ _. read_map-Gives s)
                                        λ _.
                                          if-Given _ (kind == 15 || kind == 14) _ _ s
                                            (λ _. read_list-Gives s) λ _. tt

read_value-Gives : (levels kind : ℕ) → Gives (Within levels) (read_value levels kind)
unfolding read_value
read_value-Gives zero kind s = tt
read_value-Gives (suc l) kind s = read_kind-Gives (read_value l) l (read_value-Gives l) kind s

read_header_body-Gives : Gives (λ m. Within max_levels m.1) read_header_body
unfolding read_header_body
read_header_body-Gives s = then-Given _ (read_int 4 s) _ λ word t.
    if-Given _ (word / 65536 == 0x8001) _ _ t
      (λ _. then-Given _ (read_bytes t) _ λ bytes u. then-Given _ (utf8_or bytes u) _ λ name t.
        then-Given _ (read_int 4 t) _ λ seqid u.
          resume-Given _ _ (read_value max_levels 12 u) _ (read_value-Gives max_levels 12 u)
            λ body w t. w)
      (λ _. tt)

Given-ok :
    {A : Type 0} (P : A → Type 0) (r : Result A ThriftError × Bytes) (a : A)
    → Given P r
    → r.0 ≡ ok a
    → P a
Given-ok P (ok b, s) a g h = let same : b ≡ a = cc in subst P same g
Given-ok P (err e, s) a g h = cc

-- Whatever bytes come: in a body that is read, values nest at most 17 deep, no container holds more than
-- 2 ^ 20 elements, and no string is longer than a reply may be.
pub read_message-bounded :
    (s : Bytes) (h : Header) (body : Value)
    → (read_message s).0 ≡ ok (h, body)
    → (depth body ≤ 17) × (modest body ≡ true)
unfolding read_message
read_message-bounded s h body e =
    let reply = take max_reply_bytes s in
    Given-ok (λ m. Within max_levels m.1) (read_header_body reply) (h, body)
      (read_header_body-Gives reply) e

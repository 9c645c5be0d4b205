-- ===== src/Queue/Calm.antt =====
-- `enqueue` of agent/src/queue.rs on a file system that answers every call.
use renga.Prelude.{
  ℕ, suc, ◌-◌, ◌%◌, ◌≤◌, ◌≡◌, refl, sym, ap, ◌∙◌, inl, inr, max, Bool, false, not, List, [], ◌∷◌,
  ◌++◌, ltb, length, filter, Bool-cases, arith, ok, resume, resume-resume, ◌>>=◌,
}
use renga.Bytes.{Bytes, u64_mod}
use renga.Queue.Name.{temporary_prefix, entry_name}
use renga.Queue.Entry.{Entry, File, listed, total_bytes}
use renga.Queue.Disk.{
  Answer, done, DiskQueue, Action, without, remove, read_directory, attempt, counted, present,
}
use renga.Queue.Operations.{
  entries, publish_health, drop_for_age, drop_for_space, drop_expired, expire, make_room, fits,
  is_expired, write_atomically, enqueue, next_after, append_entry, note_written,
}

-- The file system answers every call.
abbrev pub Calm : (ℕ → Answer) → Type 0
Calm os = (n : ℕ) → os n ≡ done

present-without :
    (name path : Bytes) (fs : List File)
    → present name fs ≡ false
    → present name (without path fs) ≡ false
unfolding without
present-without name path [] h = refl
present-without name path (f ∷ fs) h = ground (arith, present-without name path fs)

module _ (is_uuid : Bytes → Bool) (os : ℕ → Answer) (calm : Calm os) (name : Bytes) where
  -- An action that succeeds and does not make the file `name`.
  abbrev pub Succeeds : {A : Type 0} → Action A → DiskQueue → Type 0
  Succeeds {A} m q =
      (a : A) × (r : DiskQueue) × (m q ≡ (ok a, r))
      × (present name r.files ≡ false)
      × (r.limits ≡ q.limits)

  drop_for_space-Succeeds :
      (e : Entry) (q : DiskQueue)
      → present name q.files ≡ false
      → Succeeds (drop_for_space is_uuid os e) q
  unfolding drop_for_space publish_health read_directory remove
  drop_for_space-Succeeds e q h = (
    tt,
    (drop_for_space is_uuid os e q).1,
    ground (arith, calm q.calls, calm (suc q.calls)),
    ground (arith, calm q.calls, calm (suc q.calls), present-without name e.path q.files h),
    ground (arith, calm q.calls, calm (suc q.calls)),
  )

  drop_for_age-Succeeds :
      (e : Entry) (q : DiskQueue)
      → present name q.files ≡ false
      → Succeeds (drop_for_age is_uuid os e) q
  unfolding drop_for_age publish_health read_directory remove
  drop_for_age-Succeeds e q h = (
    tt,
    (drop_for_age is_uuid os e q).1,
    ground (arith, calm q.calls, calm (suc q.calls)),
    ground (arith, calm q.calls, calm (suc q.calls), present-without name e.path q.files h),
    ground (arith, calm q.calls, calm (suc q.calls)),
  )

  -- A block succeeds if its first step does and the rest does from there.
  bind-Succeeds :
      {A B : Type 0} (m : Action A) (f : A → Action B) (q : DiskQueue)
      → Succeeds m q
      → ((a : A) (r : DiskQueue)
          → m q ≡ (ok a, r)
          → present name r.files ≡ false
          → r.limits ≡ q.limits
          → Succeeds (f a) r)
      → Succeeds (m >>= f) q
  bind-Succeeds m f q (a, r, e, p, l) k =
      let (b, s, e', p', l') = k a r e p l in (b, s, rw e e', p', l' ∙ l)

  drop_expired-Succeeds :
      (es : List Entry) (q : DiskQueue)
      → present name q.files ≡ false
      → Succeeds (drop_expired is_uuid os es) q
  unfolding drop_expired
  drop_expired-Succeeds [] q h = (tt, q, refl, h, refl)
  drop_expired-Succeeds (e ∷ es) q h =
      bind-Succeeds (drop_for_age is_uuid os e) (λ _. drop_expired is_uuid os es) q
        (drop_for_age-Succeeds e q h) λ _ r _ p _. drop_expired-Succeeds es r p

  make_room-Succeeds :
      (size : ℕ) (es : List Entry) (remaining bytes : ℕ) (q : DiskQueue)
      → present name q.files ≡ false
      → Succeeds (make_room is_uuid os size es remaining bytes) q
  unfolding make_room
  make_room-Succeeds size [] remaining bytes q h = (tt, q, refl, h, refl)
  make_room-Succeeds size (e ∷ es) remaining bytes q h =
      elim (Bool-cases (fits q.limits size remaining bytes)) [
        | inl f ↦ (tt, q, rw f, h, refl)
        | inr f ↦ rest f (
            bind-Succeeds (drop_for_space is_uuid os e) _ q (drop_for_space-Succeeds e q h)
              λ _ r _ p _. make_room-Succeeds size es (remaining - 1) (bytes - e.bytes) r p)
      ]
    where
      rest :
          fits q.limits size remaining bytes ≡ false
          → Succeeds
              (drop_for_space is_uuid os e >>= λ _.
                make_room is_uuid os size es (remaining - 1) (bytes - e.bytes))
              q
          → Succeeds (make_room is_uuid os size (e ∷ es) remaining bytes) q
      rest f s = (s.0, s.1, rw f s.2, s.3, s.4)

module _ (is_uuid : Bytes → Bool) (os : ℕ → Answer) (calm : Calm os) where
  entries_expire-Succeeds :
      (name : Bytes) (now : ℕ) (q : DiskQueue)
      → present name q.files ≡ false
      → Succeeds is_uuid os calm name (entries is_uuid os >>= λ all. expire is_uuid os all now) q
  unfolding expire
  entries_expire-Succeeds name now q h =
      bind-Succeeds is_uuid os calm name (entries is_uuid os) _ q (all_read q h) λ all r _ p _.
        bind-Succeeds is_uuid os calm name
          (drop_expired is_uuid os (filter (is_expired r.limits now) all)) _ r
          (drop_expired-Succeeds is_uuid os calm name _ r p)
          λ _ s _ p' _. (filter (λ e. not (is_expired r.limits now e)) all, s, refl, p', refl)
    where
      all_read :
          (s : DiskQueue)
          → present name s.files ≡ false
          → Succeeds is_uuid os calm name (entries is_uuid os) s
      all_read s k =
          unfold entries read_directory in
          (listed is_uuid s.files, counted s, ground (arith, calm s.calls), k, refl)

  written :
      (tmp path body : Bytes) (now : ℕ) (q : DiskQueue)
      → present tmp q.files ≡ false
      → (r : DiskQueue) × (write_atomically is_uuid os tmp path body now q ≡ (ok tt, r))
  unfolding write_atomically attempt
  written tmp path body now q h = (
    (write_atomically is_uuid os tmp path body now q).1,
    ground (
      arith,
      calm q.calls,
      calm (suc q.calls),
      calm (suc (suc q.calls)),
      calm (suc (suc (suc q.calls))),
    ),
  )

  appended :
      (entry_id body : Bytes) (now : ℕ) (temporary : Bytes) (current : List Entry) (q : DiskQueue)
      → present (temporary_prefix ++ temporary) q.files ≡ false
      → (r : DiskQueue) × (append_entry is_uuid os entry_id body now temporary current q
          ≡ (ok tt, r))
  unfolding append_entry note_written
  appended entry_id body now temporary current q h =
      let sequence = max q.next_sequence (next_after current) in
      let (_, s, e, p, _) =
        make_room-Succeeds is_uuid os calm (temporary_prefix ++ temporary) (length body) current
          (length current) (total_bytes current) q h in
      let (t, w) =
        written (temporary_prefix ++ temporary) (entry_name sequence now entry_id) body now s p in
      (
        (publish_health is_uuid os (record t { next_sequence = suc sequence % u64_mod })).1,
        rw (e, w),
      )

  pub enqueue_answers :
      (entry_id body : Bytes) (now : ℕ) (temporary : Bytes) (q : DiskQueue)
      → length body ≤ q.limits.max_bytes
      → present (temporary_prefix ++ temporary) q.files ≡ false
      → (r : DiskQueue) × (enqueue is_uuid os entry_id body now temporary q ≡ (ok tt, r))
  unfolding enqueue
  enqueue_answers entry_id body now temporary q h k =
      let small : ltb q.limits.max_bytes (length body) ≡ false = ground arith in
      let (cs, s, e, p, _) = entries_expire-Succeeds (temporary_prefix ++ temporary) now q k in
      let (r, w) = appended entry_id body now temporary cs s p in
      (
        r,
        rw small (
            sym (
              resume-resume (entries is_uuid os q) (λ all. expire is_uuid os all now)
                (append_entry is_uuid os entry_id body now temporary))
            ∙ ap (λ m. resume m (append_entry is_uuid os entry_id body now temporary)) e
            ∙ w),
      )

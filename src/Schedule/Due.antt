-- ===== src/Schedule/Due.antt =====
-- The scheduler of agent/src/scheduler.rs: its sleep, its order and its refresh.
use renga.Prelude.{
  ℕ, ◌+◌, ◌≤◌, ◌<◌, ◌≡◌, refl, Bool, false, List, is_empty, [], ◌∷◌, ◌==◌, if◌then◌else◌,
  Bool-cases, inl, inr, arith, ltb, take, suc, ap, ◌∙◌,
}
use renga.Schedule.{
  Job, Scheduler, due_of, due, refresh_checkin, refresh_intervals, reschedule, wait, take_until,
  due_until_cancelled,
}

-- Having slept as long as `wait` says and no job before then: a later time finds some job due exactly
-- if that sleep is over by then.
pub wait-due :
    (s : Scheduler) (now later : ℕ)
    → now ≤ later
    → is_empty (due s later) ≡ ltb later (now + wait s now)
unfolding due due_of wait
wait-due s now later h = ground (arith, h)

-- A reload that changes intervals never postpones the check-in that was promised, and brings it
-- within the new interval if that changed; it leaves the times of reloading and flushing, and that
-- of the inventory unless its interval changed, which then starts anew.
pub refresh_intervals_lem :
    (s : Scheduler) (now old_checkin new_checkin old_inventory new_inventory : ℕ)
    → let t = refresh_intervals s now old_checkin new_checkin old_inventory new_inventory in
      (t.checkin ≤ s.checkin)
      × ((old_checkin == new_checkin) ≡ false → t.checkin ≤ now + new_checkin)
      × (t.inventory
          ≡ (if old_inventory == new_inventory then s.inventory else now + new_inventory))
      × (t.reload ≡ s.reload)
      × (t.flush ≡ s.flush)
unfolding refresh_intervals refresh_checkin reschedule
refresh_intervals_lem s now old_checkin new_checkin old_inventory new_inventory =
    (ground arith, λ h. ground (arith, h), ground arith, ground arith, ground arith)

take_until-prefix :
    (stopped : ℕ → Bool) (n : ℕ) (js : List Job)
    → (k : ℕ) × (take_until stopped n js ≡ take k js)
      × ((i : ℕ) → n ≤ i → i < n + k → stopped i ≡ false)
unfolding take_until
take_until-prefix stopped n [] = (0, refl, λ i h l. absurd (omega (arith, h, l)))
take_until-prefix stopped n (j ∷ js) = elim (Bool-cases (stopped n)) [
  | inl y ↦ (0, rw y refl, λ i h l. absurd (omega (arith, h, l)))
  | inr e ↦
      let (k, p, q) = take_until-prefix stopped (n + 1) js in
      (
        suc k,
        rw (e, p) refl,
        λ i h l. elim (Bool-cases (i == n)) [
          | inl same ↦ ap stopped (ground (arith, same)) ∙ e
          | inr other ↦ q i (ground (arith, h, other)) (omega (arith, l))
        ],
      )
]

-- The jobs that are run are the first of those that are due, in their order, and no cancellation was
-- seen before any of them.
due_until_cancelled-prefix :
    (s : Scheduler) (now : ℕ) (stopped : ℕ → Bool)
    → (k : ℕ) × (due_until_cancelled s now stopped ≡ take k (due s now))
      × ((i : ℕ) → i < k → stopped i ≡ false)
unfolding due_until_cancelled
due_until_cancelled-prefix s now stopped =
    let (k, p, q) = take_until-prefix stopped 0 (due s now) in
    (k, p, λ i h. q i (omega arith) (omega (arith, h)))

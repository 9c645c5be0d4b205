-- ===== src/Schedule.antt =====
-- What the daemon does when: agent/src/scheduler.rs and the shutdown flag of
-- agent/src/cancellation.rs. Times are nanoseconds.
pub mod Due
mod Examples
use renga.Prelude.{
  ℕ, ◌+◌, ◌-◌, min, Bool, true, false, ◌||◌, not, Option, none, some, List, [], ◌∷◌, leb, ◌==◌,
  if◌then◌else◌,
}

pub data Job : Type 0 where
  check_in inventory reload flush : Job

pub record Scheduler : Type 0 where
  pub checkin : ℕ
  pub inventory : ℕ
  pub reload : ℕ
  pub flush : ℕ

unfoldable pub new_scheduler : ℕ → ℕ → ℕ → ℕ → ℕ → Scheduler
new_scheduler now every_checkin every_inventory every_reload every_flush = record {
  checkin = now + every_checkin;
  inventory = now + every_inventory;
  reload = now + every_reload;
  flush = now + every_flush;
}

abbrev pub at : Job → Scheduler → ℕ
at check_in s = s.checkin
at inventory s = s.inventory
at reload s = s.reload
at flush s = s.flush

abbrev pub jobs : List Job
jobs = check_in ∷ inventory ∷ reload ∷ flush ∷ []

-- The jobs of the list whose time has come.
unfoldable pub due_of : Scheduler → ℕ → List Job → List Job
due_of s now [] = []
due_of s now (job ∷ rest) =
    if leb (at job s) now then job ∷ due_of s now rest else due_of s now rest

unfoldable pub due : Scheduler → ℕ → List Job
unfolding due_of
due s now = due_of s now jobs

pub record Cancellation : Type 0 where
  pub cancelled : Bool
  pub deadline : Option ℕ

unfoldable pub is_cancelled : Cancellation → ℕ → Bool
is_cancelled c now =
    c.cancelled || elim c.deadline [ none ↦ false | some deadline ↦ leb deadline now ]

unfoldable pub cancel : Cancellation → Cancellation
cancel c = record c { cancelled = true }

-- `take_while`: `stopped n` is what the cancellation says before the n-th job of the list.
unfoldable pub take_until : (ℕ → Bool) → ℕ → List Job → List Job
take_until stopped n [] = []
take_until stopped n (job ∷ rest) = if stopped n then [] else job ∷ take_until stopped (n + 1) rest

unfoldable pub due_until_cancelled : Scheduler → ℕ → (ℕ → Bool) → List Job
unfolding due take_until
due_until_cancelled s now stopped = take_until stopped 0 (due s now)

unfoldable pub reschedule : Scheduler → Job → ℕ → ℕ → Scheduler
reschedule s check_in now interval = record s { checkin = now + interval }
reschedule s inventory now interval = record s { inventory = now + interval }
reschedule s reload now interval = record s { reload = now + interval }
reschedule s flush now interval = record s { flush = now + interval }

-- A change of the check-in's interval brings the next one forward, never back.
unfoldable pub refresh_checkin : Scheduler → ℕ → ℕ → ℕ → Scheduler
refresh_checkin s now old new =
    if old == new then s else record s { checkin = min s.checkin (now + new) }

unfoldable pub refresh_intervals : Scheduler → ℕ → ℕ → ℕ → ℕ → ℕ → Scheduler
unfolding refresh_checkin reschedule
refresh_intervals s now old_checkin new_checkin old_inventory new_inventory =
    let t = refresh_checkin s now old_checkin new_checkin in
    if old_inventory == new_inventory then t else reschedule t inventory now new_inventory

unfoldable pub wait : Scheduler → ℕ → ℕ
wait s now = min (min (min s.checkin s.inventory) s.reload) s.flush - now

-- ===== src/Schedule/Examples.antt =====
-- A scheduler with a check-in due at 30, and a reload that asks for check-ins every 10.
use renga.Prelude.{is_empty, ℕ, ◌+◌, ◌≤◌, ◌≡◌, Bool, false, ltb, ◌==◌, if◌then◌else◌, arith}
use renga.Schedule.{Scheduler, due, refresh_intervals, wait}
use renga.Schedule.Due.{wait-due, refresh_intervals_lem}

abbrev scheduler : Scheduler
scheduler = record { checkin = 30; inventory = 60; reload = 50; flush = 120 }

wait-due_example : is_empty (due scheduler 40) ≡ ltb 40 (10 + wait scheduler 10)
wait-due_example = wait-due scheduler 10 40 (omega arith)

abbrev sooner : Scheduler
sooner = refresh_intervals scheduler 15 30 10 60 60

refresh_intervals_example :
    (sooner.checkin ≤ 30)
    × ((30 == 10) ≡ false → sooner.checkin ≤ 15 + 10)
    × (sooner.inventory ≡ (if 60 == 60 then 60 else 15 + 60))
    × (sooner.reload ≡ 50)
    × (sooner.flush ≡ 120)
refresh_intervals_example = refresh_intervals_lem scheduler 15 30 10 60 60

abbrev after_one : ℕ → Bool
after_one n = ltb 0 n

-- ===== src/Notices/Waiting.antt =====
-- How long the thread of agent/src/notices.rs waits: `jittered` and `sleep_unless`.
use native.Mathlib.Nat.{mod-lt, le_of_lt, le-add_right}
use renga.Prelude.{
  ◌-◌, ◌++◌, ◌<◌, inl, inr, Bool-cases, ℕ, zero, suc, ◌+◌, ◌*◌, ◌/◌, ◌%◌, ◌^◌, ◌≤◌, min, max, ◌≡◌,
  refl, Bool, true, false, ◌||◌, not, [], ◌∷◌, ltb, if◌then◌else◌, Result, ok, err, arith,
}
use renga.Notices.{Environment, Stop, Socket}
use renga.Notices.Outages.{millisecond, jittered, sleep_each}

-- The thread having read one thing more of its environment.
abbrev pub ticked : Socket → Socket
ticked s = record s { tick = suc s.tick }

module _ (env : Environment) where
  -- How the thread waits for a deadline, in at most so many looks at the clock: it is cancelled, or the
  -- deadline has come, and the flag is true; or it sleeps for 50 milliseconds, or for less where the
  -- deadline is nearer, and waits on. The flag is false if it still waits after these looks.
  pub data Waits (deadline : ℕ) : ℕ → Bool → Socket → Socket → Type 0 where
    waiting : (s : Socket) → Waits deadline 0 false s s
    cancels :
        (n : ℕ) (s : Socket)
        → env.cancelled s.tick ≡ true
        → Waits deadline (suc n) true s (ticked s)
    ends :
        (n : ℕ) (s : Socket)
        → env.cancelled s.tick ≡ false
        → deadline ≤ env.now (suc s.tick)
        → Waits deadline (suc n) true s (ticked (ticked s))
    naps :
        (n : ℕ) (done : Bool) (s r : Socket)
        → env.cancelled s.tick ≡ false
        → env.now (suc s.tick) < deadline
        → Waits deadline n done
            (record (ticked (ticked s)) {
              slept = s.slept ++ min (deadline - env.now (suc s.tick)) (50 * millisecond) ∷ [];
            })
            r
        → Waits deadline (suc n) done s r

pub half_≤_jittered : (random interval : ℕ) → interval / 2 ≤ jittered random interval
unfolding jittered
half_≤_jittered random interval = le-add_right _ _

-- What is drawn below the number of milliseconds of the half, and below one at least.
drawn_≤ : (random q : ℕ) → random % max q 1 ≤ q
drawn_≤ random zero = omega arith
drawn_≤ random (suc p) = rw (more p) (le_of_lt (mod-lt random {m = suc p} (omega arith)))
  where
    more : (p : ℕ) → max (suc p) 1 ≡ suc p
    more p = omega arith

wrapped_≤ : (x half : ℕ) → x ≤ half / millisecond → x % 2 ^ 64 * millisecond ≤ half
wrapped_≤ x half h = omega arith

halves_lem : (x interval : ℕ) → x ≤ interval / 2 → interval / 2 + x ≤ interval
halves_lem x interval h = omega arith

pub jittered_≤ : (random interval : ℕ) → jittered random interval ≤ interval
unfolding jittered
jittered_≤ random interval =
    let half = interval / 2 in
    halves_lem _ interval
      (wrapped_≤ (random % max (half / millisecond) 1) half (drawn_≤ random (half / millisecond)))

pub warned_lem :
    (joined quiet : Bool) → not (if joined then false else quiet) ≡ (joined || not quiet)
warned_lem true quiet = refl
warned_lem false quiet = refl

abbrev pub is_done : Result (Unit {0}) Stop → Bool
is_done (ok _) = true
is_done (err _) = false

module _ (env : Environment) where
  pub sleep_each-Waits :
      (fuel deadline : ℕ) (s : Socket)
      → let p = sleep_each env fuel deadline s in Waits env deadline fuel (is_done p.0) s p.1
  unfolding sleep_each
  sleep_each-Waits zero deadline s = waiting s
  sleep_each-Waits (suc fuel) deadline s = elim (Bool-cases (env.cancelled s.tick)) [
    | inl c ↦ rw c (cancels fuel s c)
    | inr c ↦ elim (Bool-cases (ltb (env.now (suc s.tick)) deadline)) [
      | inl l ↦
          rw (c, l)
            (naps fuel _ s _ c (ground arith) (
              sleep_each-Waits fuel deadline (record (ticked (ticked s)) {
                slept = s.slept ++ min (deadline - env.now (suc s.tick)) (50 * millisecond) ∷ [];
              })))
      | inr l ↦ rw (c, l) (ends fuel s c (ground arith))
    ]
  ]

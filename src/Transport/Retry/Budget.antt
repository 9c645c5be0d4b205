-- ===== src/Transport/Retry/Budget.antt =====
-- How far `retry_with_budget` of agent/src/transport.rs goes, and what it answers.
use renga.Prelude.{
  ℕ, zero, suc, ◌+◌, ◌-◌, ◌*◌, ◌≤◌, ◌<◌, ◌≡◌, ◌⊎◌, refl, sym, ap, subst, inl, inr, min, max, Bool,
  true, false, ◌||◌, not, List, [], ◌∷◌, ◌++◌, ltb, ◌==◌, if◌then◌else◌, All, Result, ok, err,
  resume, arith,
}
use renga.Transport.Failure.{TransportError, cancelled_error, is_transient}
use renga.Transport.Retry.{
  Stop, failed, panicked, Attempts, Action, look, sleep, wait_out, asked_delay, back_off, judge,
  attempt_each, retry_with_budget, backoff_slice, first_delay, longest_delay,
}

module _ {A : Type 0} (now : ℕ → ℕ) (cancelled : ℕ → Bool)
    (operation : ℕ → Result A TransportError) where
  wait_out-frame :
      (fuel remaining : ℕ) (s : Attempts)
      → ((wait_out now cancelled operation fuel remaining s).1.starts ≡ s.starts)
        × ((wait_out now cancelled operation fuel remaining s).1.calls ≡ s.calls)
  unfolding wait_out
  wait_out-frame zero remaining s = (refl, refl)
  wait_out-frame (suc fuel) remaining s = ground (
    arith,
    wait_out-frame fuel (remaining - min remaining backoff_slice) (
        sleep now cancelled operation (min remaining backoff_slice)
          (look now cancelled operation s).1),
  )

  if-post :
      {B : Type 0} (P : Result B Stop × Attempts → Type 0) (b : Bool) (m n : Action B)
      (s : Attempts)
      → (b ≡ true → P (m s))
      → (b ≡ false → P (n s))
      → P ((if b then m else n) s)
  if-post P true m n s i j = i refl
  if-post P false m n s i j = j refl

  resume-post :
      {B C : Type 0} (P : Result C Stop × Attempts → Type 0) (p : Result B Stop × Attempts)
      (f : B → Action C)
      → ((e : Stop) (s : Attempts) → p ≡ (err e, s) → P (err e, s))
      → ((b : B) (s : Attempts) → p ≡ (ok b, s) → P (f b s))
      → P (resume p f)
  resume-post P (ok b, s) f i j = j b s refl
  resume-post P (err e, s) f i j = i e s refl

  wait_out-error :
      (fuel remaining : ℕ) (s x : Attempts) (e : Stop)
      → wait_out now cancelled operation fuel remaining s ≡ (err e, x)
      → e ≡ failed cancelled_error
  unfolding wait_out
  wait_out-error zero remaining s x e h = cc
  wait_out-error (suc fuel) remaining s x e h = ground (
    arith,
    h,
    wait_out-error fuel (remaining - min remaining backoff_slice)
        (sleep now cancelled operation (min remaining backoff_slice)
          (look now cancelled operation s).1)
        x e,
  )

  module _ (timeout budget started most : ℕ) where
    abbrev InTime : ℕ → Type 0
    InTime t = (t - started) + timeout ≤ budget

    -- So many calls may follow, and each before was in time.
    abbrev Bounded : ℕ → Attempts → Type 0
    Bounded left s = All InTime s.starts × (s.calls + left ≤ most)

    abbrev Post : Result A Stop × Attempts → Type 0
    Post p = Bounded 0 p.1

    Bounded-less : (left : ℕ) (s : Attempts) → Bounded left s → Bounded 0 s
    Bounded-less left s b = (b.0, omega (arith, b.1))

    All-snoc : (ts : List ℕ) (t : ℕ) → All InTime ts → InTime t → All InTime (ts ++ t ∷ [])
    All-snoc [] t a h = (h, tt)
    All-snoc (x ∷ ts) t a h = (a.0, All-snoc ts t a.1 h)

    back_off-Bounded :
        (e : TransportError) (left delay : ℕ) (again : Action A) (s : Attempts)
        → Bounded left s
        → ((x : Attempts) → Bounded left x → InTime x.clock → Post (again x))
        → Post (back_off now cancelled operation timeout budget started e delay again s)
    unfolding back_off
    back_off-Bounded e left delay again s b k =
        let pause = max delay (asked_delay now cancelled operation e (now s.tick)) in
        let x = record s { tick = suc (suc s.tick); clock = now (suc s.tick) } in
        if-post Post (ltb budget ((now (suc s.tick) - started) + pause + timeout)) _ _ x
          (λ _. Bounded-less left x b)
          λ _.
            resume-post Post (wait_out now cancelled operation pause pause x) _
              (λ f y w. moved y (ap (λ p. p.1) w) 0 (Bounded-less left x b))
              λ _ y w.
                let z = record y { tick = suc y.tick; clock = now y.tick } in
                let kept : Bounded left z = moved y (ap (λ p. p.1) w) left b in
                if-post Post (ltb budget ((now y.tick - started) + timeout)) _ _ z
                  (λ _. Bounded-less left z kept) λ n. k z kept (ground (arith, n))
      where
        moved :
            (y : Attempts)
            → (wait_out now cancelled operation
                (max delay (asked_delay now cancelled operation e (now s.tick)))
                (max delay (asked_delay now cancelled operation e (now s.tick)))
                (record s { tick = suc (suc s.tick); clock = now (suc s.tick) })).1
              ≡ y
            → (n : ℕ) → Bounded n (record s { tick = suc (suc s.tick); clock = now (suc s.tick) })
            → Bounded n y
        moved y w n c =
            let (f, g) =
              wait_out-frame (max delay (asked_delay now cancelled operation e (now s.tick)))
                (max delay (asked_delay now cancelled operation e (now s.tick)))
                (record s { tick = suc (suc s.tick); clock = now (suc s.tick) }) in
            subst (Bounded n) w (subst (All InTime) (sym f) c.0, omega (arith, c.1, g))

    attempt_each-Bounded :
        (left delay : ℕ) (s : Attempts)
        → Bounded left s
        → InTime s.clock
        → Post (attempt_each now cancelled operation timeout budget started left delay s)
    unfolding attempt_each judge
    attempt_each-Bounded zero delay s b t = b
    attempt_each-Bounded (suc left) delay s b t =
        let x = record s { tick = suc s.tick } in
        let y = record x { calls = suc s.calls; starts = s.starts ++ s.clock ∷ [] } in
        let kept : Bounded left y = (All-snoc s.starts s.clock b.0 t, omega (arith, b.1)) in
        if-post Post (cancelled s.tick) _ _ x (λ _. Bounded-less (suc left) x b)
          λ _.
            go (operation s.calls) y kept
              (attempt_each-Bounded left (min (delay * 2) longest_delay))
      where
        go :
            (result : Result A TransportError) (y : Attempts)
            → Bounded left y
            → ((x : Attempts)
                → Bounded left x
                → InTime x.clock
                → Post (
                    attempt_each now cancelled operation timeout budget started left
                      (min (delay * 2) longest_delay)
                      x))
            → Post (
                judge now cancelled operation timeout budget started left delay
                  (attempt_each now cancelled operation timeout budget started left
                    (min (delay * 2) longest_delay))
                  result
                  y)
        go (ok value) y c k = Bounded-less left y c
        go (err e) y c k =
            if-post Post (not (is_transient e) || e.moved || left == 0) _ _ y
              (λ _. Bounded-less left y c) λ _. back_off-Bounded e left delay _ y c k

  -- Whatever the operation answers: it is called at most `attempts` times, and each call starts when,
  -- by the clock read last before it, its timeout still fits into the budget, if it did at first.
  pub retry_with_budget-Bounded :
      (attempts timeout budget : ℕ) (s : Attempts)
      → s.starts ≡ []
      → s.calls ≡ 0
      → timeout ≤ budget
      → All
          (λ t. (t - now s.tick) + timeout ≤ budget)
          (retry_with_budget now cancelled operation attempts timeout budget s).1.starts
        × ((retry_with_budget now cancelled operation attempts timeout budget s).1.calls ≤ attempts)
  unfolding retry_with_budget
  retry_with_budget-Bounded attempts timeout budget s e c h =
      let x = record s { tick = suc s.tick; clock = now s.tick } in
      let (a, b) =
        attempt_each-Bounded timeout budget (now s.tick) attempts attempts first_delay x
          (rw e tt, omega (arith, c)) (omega (arith, h)) in
      (a, omega (arith, b))

  -- An answer that the operation gave, or the cancellation's error.
  abbrev pub Answered : Result A Stop × Attempts → Type 0
  Answered (ok value, s) = (n : ℕ) × (operation n ≡ ok value)
  Answered (err (failed e), s) = (e ≡ cancelled_error) ⊎ ((n : ℕ) × (operation n ≡ err e))
  Answered (err panicked, s) = ⊥

  back_off-Answered :
      (timeout budget started : ℕ) (e : TransportError) (n delay : ℕ) (again : Action A)
      (s : Attempts)
      → operation n ≡ err e
      → ((x : Attempts) → Answered (again x))
      → Answered (back_off now cancelled operation timeout budget started e delay again s)
  unfolding back_off
  back_off-Answered timeout budget started e n delay again s h k =
      let pause = max delay (asked_delay now cancelled operation e (now s.tick)) in
      let x = record s { tick = suc (suc s.tick); clock = now (suc s.tick) } in
      if-post Answered (ltb budget ((now (suc s.tick) - started) + pause + timeout)) _ _ x
        (λ _. inr (n, h))
        λ _.
          resume-post Answered (wait_out now cancelled operation pause pause x) _
            (λ f y w.
              subst (λ g. Answered (err g, y)) (sym (wait_out-error pause pause x y f w))
                (inl refl))
            λ _ y w.
              if-post Answered (ltb budget ((now y.tick - started) + timeout)) _ _
                (record y { tick = suc y.tick; clock = now y.tick }) (λ _. inr (n, h)) λ _. k _

  attempt_each-Answered :
      (timeout budget started left delay : ℕ) (s : Attempts)
      → 0 < left
      → Answered (attempt_each now cancelled operation timeout budget started left delay s)
  unfolding attempt_each judge
  attempt_each-Answered timeout budget started zero delay s p = absurd (omega (arith, p))
  attempt_each-Answered timeout budget started (suc left) delay s p =
      if-post Answered (cancelled s.tick) _ _ (record s { tick = suc s.tick }) (λ _. inl refl)
        λ _.
          go (operation s.calls) refl _
            (attempt_each-Answered timeout budget started left (min (delay * 2) longest_delay))
    where
      go :
          (result : Result A TransportError)
          → operation s.calls ≡ result
          → (y : Attempts)
          → ((x : Attempts)
              → 0 < left
              → Answered (
                  attempt_each now cancelled operation timeout budget started left
                    (min (delay * 2) longest_delay)
                    x))
          → Answered (
              judge now cancelled operation timeout budget started left delay
                (attempt_each now cancelled operation timeout budget started left
                  (min (delay * 2) longest_delay))
                result
                y)
      go (ok value) h y k = (s.calls, h)
      go (err e) h y k =
          if-post Answered (not (is_transient e) || e.moved || left == 0) _ _ y
            (λ _. inr (s.calls, h))
            λ c.
              back_off-Answered timeout budget started e s.calls delay _ y h
                λ x. k x (ground (arith, c))

  -- With at least one attempt the loop never runs out: it returns a value that the operation
  -- returned, an error that the operation returned, or the error of the cancellation.
  pub retry_with_budget-Answered :
      (attempts timeout budget : ℕ) (s : Attempts)
      → 0 < attempts
      → Answered (retry_with_budget now cancelled operation attempts timeout budget s)
  unfolding retry_with_budget
  retry_with_budget-Answered attempts timeout budget s p =
      attempt_each-Answered timeout budget (now s.tick) attempts first_delay _ p

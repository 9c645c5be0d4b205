-- ===== src/Prelude/Effects.antt =====
-- Methods that change an object and may fail: what was changed before a failure stays changed, so
-- the state comes back beside the error too. A `do` block is a body in which `?` follows each call.
use mathlib.Core.Logic.{◌⊎◌, inl, inr}
use native.Mathlib.Omega.{arith}
use mathlib.Core.Path.{◌≡◌, refl, subst}
use mathlib.Core.Bool.{Bool, true, false}
use mathlib.Core.Option.{Option, none, some}
use renga.Prelude.Tests.{if◌then◌else◌}

pub data Result {ℓ κ} (A : Type ℓ) (E : Type κ) : Type (ℓ ⊔ κ) where
  ok : A → Result A E
  err : E → Result A E

abbrev pub Stateful {ℓ} : Type ℓ → Type ℓ → Type ℓ → Type ℓ
Stateful S E A = S → Result A E × S

module _ {ℓ} {S E A : Type ℓ} where
  abbrev pub pure : A → Stateful S E A
  pure a s = (ok a, s)

  abbrev pub raise : E → Stateful S E A
  raise e s = (err e, s)

  abbrev pub gets : (S → A) → Stateful S E A
  gets f s = (ok (f s), s)

module _ {ℓ} {S E A B : Type ℓ} where
  abbrev pub resume : Result A E × S → (A → Stateful S E B) → Result B E × S
  resume (ok a, s) f = f a s
  resume (err e, s) f = (err e, s)

  infixl 10 ◌>>=◌ ◌>>◌
  abbrev pub ◌>>=◌ : Stateful S E A → (A → Stateful S E B) → Stateful S E B
  ◌>>=◌ m f s = resume (m s) f

  abbrev pub ◌>>◌ : Stateful S E A → Stateful S E B → Stateful S E B
  ◌>>◌ m k s = resume (m s) (λ _. k)

-- The change of a field, which cannot fail.
abbrev pub modify {ℓ} : {S E : Type ℓ} → (S → S) → Stateful S E Unit
modify f s = (ok tt, f s)

module _ {ℓ} {S E A B : Type ℓ} where
  -- A block that succeeds has succeeded in its first step, and the rest in the state that it left.
  pub resume-eq-ok :
      (p : Result A E × S) (f : A → Stateful S E B) {b : B} {s' : S}
      → resume p f ≡ (ok b, s')
      → (a : A) × (s : S) × (p ≡ (ok a, s)) × (f a s ≡ (ok b, s'))
  resume-eq-ok (ok a, s) f h = (a, s, refl, h)
  resume-eq-ok (err e, s) f h = cc

  -- A block that fails has failed in its first step, or later, from the state that step left.
  pub resume-eq-err :
      (p : Result A E × S) (f : A → Stateful S E B) {e : E} {s' : S}
      → resume p f ≡ (err e, s')
      → (p ≡ (err e, s')) ⊎ ((a : A) × (s : S) × (p ≡ (ok a, s)) × (f a s ≡ (err e, s')))
  resume-eq-err (ok a, s) f h = inr (a, s, refl, h)
  resume-eq-err (err e, s) f h = inl (ground arith)

pub resume-resume {ℓ} :
    {S E A B C : Type ℓ} (p : Result A E × S) (f : A → Stateful S E B) (g : B → Stateful S E C)
    → resume (resume p f) g ≡ resume p (λ a s. resume (f a s) g)
resume-resume (ok a, s) f g = refl
resume-resume (err e, s) f g = refl

-- `?` where there is no state: the rest goes on with what was computed, or the error is the result.
abbrev pub chain {ℓ κ μ} :
    {A : Type ℓ} {B : Type κ} {E : Type μ} → Result A E → (A → Result B E) → Result B E
chain (ok a) f = f a
chain (err e) f = err e

pub chain-eq-ok {ℓ κ μ} :
    {A : Type ℓ} {B : Type κ} {E : Type μ} (r : Result A E) (f : A → Result B E) {b : B}
    → chain r f ≡ ok b
    → (a : A) × (r ≡ ok a) × (f a ≡ ok b)
chain-eq-ok (ok a) f h = (a, refl, h)
chain-eq-ok (err e) f h = cc

-- An error unless the test holds.
abbrev pub ensure {ℓ} : {E : Type ℓ} → Bool → E → Result (Unit {0}) E
ensure true e = ok tt
ensure false e = err e

pub ensure-eq-ok {ℓ} : {E : Type ℓ} (b : Bool) (e : E) {u : Unit {0}} → ensure b e ≡ ok u → b ≡ true
ensure-eq-ok true e h = refl
ensure-eq-ok false e h = cc

-- `ok_or`
abbrev pub ok_or {ℓ κ} : {A : Type ℓ} {E : Type κ} → Option A → E → Result A E
ok_or none e = err e
ok_or (some a) e = ok a

pub ok_or-eq-ok {ℓ κ} :
    {A : Type ℓ} {E : Type κ} (o : Option A) (e : E) {a : A} → ok_or o e ≡ ok a → o ≡ some a
ok_or-eq-ok none e h = cc
ok_or-eq-ok (some b) e h = ground (arith, h)

module _ {ℓ κ} {A : Type ℓ} {E : Type κ} where
  pub ok_injective : {a b : A} → ◌≡◌ {A = Result A E} (ok a) (ok b) → a ≡ b
  ok_injective h = cc

  pub unless-eq-ok :
      (b : Bool) (e : E) {r : Result A E} {a : A}
      → (if b then err e else r) ≡ ok a
      → (b ≡ false) × (r ≡ ok a)
  unless-eq-ok true e h = absurd cc
  unless-eq-ok false e h = (refl, h)

  pub when-eq-ok :
      (b : Bool) (e : E) {x a : A} → (if b then ok x else err e) ≡ ok a → (b ≡ true) × (x ≡ a)
  when-eq-ok true e h = (refl, ok_injective h)
  when-eq-ok false e h = absurd cc

-- What is computed without an error has the property.
abbrev pub Ensures {ℓ κ μ} :
    {A : Type ℓ} {E : Type κ} → (A → Type μ) → Result A E → Type (ℓ ⊔ κ ⊔ μ)
Ensures P r = (b : _) → r ≡ ok b → P b

module _ {ℓ κ μ} {B : Type ℓ} {E : Type κ} (P : B → Type μ) where
  pub ok-Ensures : (b : B) → P b → Ensures {E = E} P (ok b)
  ok-Ensures b p a h = subst P (ok_injective h) p

  pub chain-Ensures {ν} :
      {A : Type ν} (r : Result A E) (f : A → Result B E)
      → ((a : A) → r ≡ ok a → Ensures P (f a))
      → Ensures P (chain r f)
  chain-Ensures (ok a) f rest = rest a refl
  chain-Ensures (err e) f rest = λ b h. absurd cc

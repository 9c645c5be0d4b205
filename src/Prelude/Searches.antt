-- ===== src/Prelude/Searches.antt =====
-- What is found in a list that was mapped, filtered or compared.
use mathlib.Core.Path.{◌≡◌, refl, ap}
use mathlib.Core.Logic.{◌⊎◌, inl, inr}
use mathlib.Core.Bool.{Bool, true, false}
use mathlib.Core.List.{List, [], ◌∷◌, ◌++◌, map}
use native.Mathlib.Omega.{arith}
use renga.Prelude.Tests.{if◌then◌else◌, Bool-cases}
use renga.Prelude.Lists.{any, All, All-map}
use renga.Prelude.Filters.{filter}

pub map_append :
    {A B : Type 0} (f : A → B) (xs ys : List A) → map f (xs ++ ys) ≡ map f xs ++ map f ys
map_append f [] ys = refl
map_append f (x ∷ xs) ys = ap (λ t. f x ∷ t) (map_append f xs ys)

pub any_map :
    {A B : Type 0} (p : A → Bool) (q : B → Bool) (f : A → B)
    → ((a : A) → p a ≡ true → q (f a) ≡ true)
    → (xs : List A) → any p xs ≡ true
    → any q (map f xs) ≡ true
any_map p q f h [] e = e
any_map p q f h (x ∷ xs) e = elim (Bool-cases (p x)) [
  | inl here ↦ ground (arith, h x here)
  | inr there ↦ ground (arith, any_map p q f h xs)
]

-- Each element that passes the test is found among those that pass.
pub filter_found :
    {A : Type 0} (p : A → Bool) (m : A → A → Bool)
    → ((a : A) → m a a ≡ true)
    → (xs : List A) → All (λ a. (p a ≡ false) ⊎ (any (m a) (filter p xs) ≡ true)) xs
filter_found p m h [] = tt
filter_found p m h (x ∷ xs) = go (p x) refl (filter_found p m h xs)
  where
    go :
        (b : Bool)
        → p x ≡ b
        → All (λ a. (p a ≡ false) ⊎ (any (m a) (filter p xs) ≡ true)) xs
        → let kept = if b then x ∷ filter p xs else filter p xs in
          ((p x ≡ false) ⊎ (any (m x) kept ≡ true))
          × All (λ a. (p a ≡ false) ⊎ (any (m a) kept ≡ true)) xs
    go true e rest = (
      inr (ground (arith, h x)),
      All-map (λ a f. elim f [ inl fails ↦ inl fails | inr found ↦ inr (ground arith) ]) xs rest,
    )
    go false e rest = (inl e, rest)

pub any_ext :
    {A : Type 0} (p q : A → Bool) → ((a : A) → p a ≡ q a) → (xs : List A) → any p xs ≡ any q xs
any_ext p q h [] = refl
any_ext p q h (x ∷ xs) = rw (h x, any_ext p q h xs) refl

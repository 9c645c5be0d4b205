-- ===== src/Jobs/Catalog/Policy.antt =====
-- The policy of agent/src/jobs/mod.rs: what is advertised against what is run.
use renga.Prelude.{
  ◌≡◌, refl, inl, inr, Bool, true, false, ◌&&◌, Option, none, some, List, [], ◌∷◌, any, arith,
  Bool-cases,
}
use renga.Bytes.{Bytes, bytes_eq}
use renga.Jobs.Catalog.{Capability, JobPolicy, allows, key, enabled_keys, enabled}

abbrev pub is_some {ℓ} : {A : Type ℓ} → Option A → Bool
is_some none = false
is_some (some _) = true

-- A leased job's key names a capability that the agent runs exactly if it is one of the keys that
-- the agent advertises under the same policy.
pub enabled-enabled_keys :
    (catalog : List Capability) (k : Bytes) (p : JobPolicy)
    → is_some (enabled catalog k p) ≡ any (λ a. bytes_eq a k) (enabled_keys catalog p)
unfolding enabled enabled_keys
enabled-enabled_keys [] k p = refl
enabled-enabled_keys (c ∷ cs) k p = ground (arith, enabled-enabled_keys cs k p)

-- The capability that runs a job is compiled in under the job's own key and allowed by the policy.
pub enabled-allows :
    (catalog : List Capability) (k : Bytes) (p : JobPolicy) (c : Capability)
    → enabled catalog k p ≡ some c
    → (bytes_eq (key c) k ≡ true) × (allows p c ≡ true)
unfolding enabled
enabled-allows [] k p c h = cc
enabled-allows (d ∷ ds) k p c h = elim (Bool-cases (bytes_eq (key d) k && allows p d)) [
  | inl e ↦ (ground arith, ground arith)
  | inr e ↦ enabled-allows ds k p c (ground arith)
]

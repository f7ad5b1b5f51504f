-- ===== src/Machine/Returns.antt =====
-- A run that returns: no panic, no fault, enough fuel, and a postcondition.
use testcode.Base.{◌≡◌, refl}
use testcode.Machine.{Kernel, Run, ok, K, and_then}

pub data Returns {ℓ κ} {A : Type ℓ} (P : A → Kernel → Type κ) : Run A → Type (ℓ ⊔ κ) where
  returns : {a : A} {s : Kernel} → P a s → Returns P (ok a s)

module _ {ℓ κ} {A : Type ℓ} {P : A → Kernel → Type κ} where
  pub bind {ℓ' κ'} :
      {B : Type ℓ'} {Q : B → Kernel → Type κ'} {r : Run A} {k : A → K B}
      → Returns P r
      → ((a : A) (s : Kernel) → P a s → Returns Q (k a s))
      → Returns Q (and_then r k)
  bind (returns p) next = next _ _ p

  pub mono {κ'} :
      {Q : A → Kernel → Type κ'} {r : Run A}
      → Returns P r
      → ((a : A) (s : Kernel) → P a s → Q a s)
      → Returns Q r
  mono (returns p) weaken = returns (weaken _ _ p)

  -- A run that returns has a result and a final state.
  pub outcome : {r : Run A} → Returns P r → (a : A) × (s : Kernel) × (r ≡ ok a s) × P a s
  outcome (returns {a} {s} p) = (a, s, refl, p)

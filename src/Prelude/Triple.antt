-- ===== src/Prelude/Triple.antt =====
-- What holds when a call that reads and writes a state comes back: a property of the state that the
-- call keeps, a property of the value it returns, and `E`, which holds where it raises.
use mathlib.Core.Path.{◌≡◌, refl}
use agentware.Prelude.Exec.{Exec, Result, ok, raise, pure, continue, ◌>>=◌}

abbrev pub Outcome {ℓ} : {A : Type ℓ} → (A → Type 0) → Type 0 → Result A → Type 0
Outcome P E (ok a) = P a
Outcome P E (raise e) = E

-- `E` is `Unit` where a call may raise, and `⊥` where it never does.
abbrev pub Triple {ℓ κ μ} :
    {W : Type ℓ} {A : Type κ} → (W → Type μ) → (A → Type 0) → Type 0 → Exec W A → Type (ℓ ⊔ μ)
Triple {W = W} I P E m = (w : W) → I w → Outcome P E (m w).0 × I (m w).1

-- Nothing is asked of the outcome.
pub Outcome-any {ℓ} : {A : Type ℓ} (r : Result A) → Outcome (λ _. Unit) Unit r
Outcome-any (ok a) = tt
Outcome-any (raise e) = tt

-- A call that never raises and whose value has `P` returns such a value.
pub Outcome-ok {ℓ} :
    {A : Type ℓ} (P : A → Type 0) (r : Result A) → Outcome P ⊥ r → (a : A) × (r ≡ ok a) × P a
Outcome-ok P (ok a) h = (a, refl, h)
Outcome-ok P (raise e) h = absurd h

pub pure-Triple {ℓ κ μ} :
    {W : Type ℓ} {A : Type κ} (I : W → Type μ) (P : A → Type 0) (E : Type 0) (a : A)
    → P a
    → Triple I P E (pure a)
pure-Triple I P E a h w i = (h, i)

module _ {ℓ κ ν μ} {W : Type ℓ} {A : Type κ} {B : Type ν} (I : W → Type μ) (P : A → Type 0)
    (Q : B → Type 0) (E : Type 0) where
  continue-Triple :
      (r : Result A) (f : A → Exec W B) (w : W)
      → Outcome P E r × I w
      → ((a : A) → P a → Triple I Q E (f a))
      → Outcome Q E (continue r f w).0 × I (continue r f w).1
  continue-Triple (ok a) f w (h, i) k = k a h w i
  continue-Triple (raise e) f w (h, i) k = (h, i)

  pub bind-Triple :
      (m : Exec W A) (f : A → Exec W B)
      → Triple I P E m
      → ((a : A) → P a → Triple I Q E (f a))
      → Triple I Q E (m >>= f)
  bind-Triple m f h k w i = continue-Triple (m w).0 f (m w).1 (h w i) k

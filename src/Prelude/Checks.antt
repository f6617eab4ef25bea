-- ===== src/Prelude/Checks.antt =====
-- Guards that raise, one after the other.
use mathlib.Core.Path.{◌≡◌, refl}
use mathlib.Core.Bool.{Bool, true, false}
use agentware.Prelude.Exec.{Result, ok, raise, Error}
use agentware.Prelude.Triple.{Outcome}

-- What a loop or a guard has found: nothing, or the error that it raises.
abbrev pub Check : Type 0
Check = Result (Unit {0})

infixl 5 ◌>>=◌
abbrev pub ◌>>=◌ : {A B : Type 0} → Result A → (A → Result B) → Result B
ok a >>= f = f a
raise e >>= f = raise e

infixl 5 ◌>>◌
abbrev pub ◌>>◌ : {A B : Type 0} → Result A → Result B → Result B
m >> k = m >>= λ _. k

-- `if not b: raise e`
abbrev pub require : Bool → Error → Check
require true e = ok tt
require false e = raise e

pub then-ok :
    {B : Type 0} (m : Check) (k : Result B) (b : B) → (m >> k) ≡ ok b → (m ≡ ok tt) × (k ≡ ok b)
then-ok (ok _) k b h = (refl, h)
then-ok (raise e) k b h = cc h

pub require-ok : (b : Bool) (e : Error) → require b e ≡ ok tt → b ≡ true
require-ok true e h = refl
require-ok false e h = cc h

-- What two results in a row give.
pub bind-Outcome :
    {A B : Type 0} (P : A → Type 0) (Q : B → Type 0) (m : Result A) (f : A → Result B)
    → Outcome P (Unit {0}) m
    → ((a : A) → P a → Outcome Q (Unit {0}) (f a))
    → Outcome Q (Unit {0}) (m >>= f)
bind-Outcome P Q (ok a) f h k = k a h
bind-Outcome P Q (raise e) f h k = tt

-- ===== src/Prelude/Outcome.antt =====
-- The end of a call in a program that may call abort().
use mathlib.Core.Path.{◌≡◌, ap}

-- What a call leaves: a result, or the process is gone.
pub data Outcome {ℓ} (A : Type ℓ) : Type ℓ where
  done : A → Outcome A
  aborted : Outcome A

infixl 5 ◌>>=◌
abbrev pub ◌>>=◌ {ℓ κ} : {A : Type ℓ} {B : Type κ} → Outcome A → (A → Outcome B) → Outcome B
done a >>= f = f a
aborted >>= f = aborted

pub bind-done {ℓ κ} :
    {A : Type ℓ} {B : Type κ} (m : Outcome A) (a : A) (f : A → Outcome B)
    → m ≡ done a
    → (m >>= f) ≡ f a
bind-done m a f e = ap (λ r. r >>= f) e

-- ===== src/Prelude/Results.antt =====
-- What a call of the C++ code can do: return, or run into undefined behaviour (an access out of
-- bounds), or never return, or throw an exception.
use mathlib.Core.Path.{◌≡◌, refl}

pub data Fault : Type 0 where
  undefined hangs throws : Fault

pub data Result {ℓ} (A : Type ℓ) : Type ℓ where
  ok : A → Result A
  fault : Fault → Result A

-- A call of code that may fail, and what is done with what it returns.
abbrev pub ◌>>=◌ {ℓ κ} :
    {A : Type ℓ} {B : Type κ} (call : Result A) (next : A → Result B) → Result B
fault f >>= next = fault f
ok a >>= next = next a

infixl 5 ◌>>=◌
-- Inversion of a call that returns.
pub bind-eq-ok {ℓ κ} :
    {A : Type ℓ} {B : Type κ} (call : Result A) (next : A → Result B) {b : B}
    → (call >>= next) ≡ ok b
    → (a : A) × (call ≡ ok a) × (next a ≡ ok b)
bind-eq-ok (fault f) next h = cc
bind-eq-ok (ok a) next h = (a, refl, h)

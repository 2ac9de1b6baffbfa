-- ===== src/Prelude/Result.antt =====
-- A result or a raised error.
use mathlib.Core.Path.{◌≡◌, refl}

pub data Result {ℓ κ} (E : Type ℓ) (A : Type κ) : Type (ℓ ⊔ κ) where
  ok : A → Result E A
  err : E → Result E A

-- The rest of a block runs on a value, and an error ends it.
infixl 5 ◌>>=◌
abbrev pub ◌>>=◌ {ε α β} :
    {E : Type ε} {A : Type α} {B : Type β} → Result E A → (A → Result E B) → Result E B
err raised >>= rest = err raised
ok value >>= rest = rest value

-- A block that gives a value went through its first step.
pub >>=-eq-ok {ε α β} :
    {E : Type ε} {A : Type α} {B : Type β} (step : Result E A) (rest : A → Result E B) {out : B}
    → (step >>= rest) ≡ ok out
    → (value : A) × (step ≡ ok value) × (rest value ≡ ok out)
>>=-eq-ok (err raised) rest e = cc
>>=-eq-ok (ok value) rest e = (value, refl, e)

pub ok-eq-ok {ε α} :
    {E : Type ε} {A : Type α} {x y : A} → ◌≡◌ {A = Result E A} (ok x) (ok y) → x ≡ y
ok-eq-ok e = cc

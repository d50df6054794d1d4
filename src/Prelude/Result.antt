-- ===== src/Prelude/Result.antt =====
-- A Go function's `(value, error)` pair, of which one half is meant.
use mathlib.Core.Path.{◌≡◌, refl}
use mathlib.Core.Logic.{◌⊎◌, inl, inr}
use mathlib.Core.Bool.{Bool, true, false}

pub data Result {ℓ} (E A : Type ℓ) : Type ℓ where
  ok : A → Result E A
  err : E → Result E A

infixl 5 ◌>>=◌ ◌>>◌
abbrev pub ◌>>=◌ {ℓ} : {E A B : Type ℓ} → Result E A → (A → Result E B) → Result E B
ok a >>= f = f a
err e >>= f = err e

abbrev pub ◌>>◌ {ℓ} : {E A B : Type ℓ} → Result E A → Result E B → Result E B
m >> k = m >>= λ _. k

-- `if c { return err }`
abbrev pub fail_if : {E : Type 0} → Bool → E → Result E (Unit {0})
fail_if true e = err e
fail_if false e = ok tt

-- A chain that succeeds: its first step gave an `x`, from which the rest succeeds.
pub >>=-eq-ok {ℓ} :
    {E X Y : Type ℓ} {y : Y} (first : Result E X) (next : X → Result E Y)
    → (first >>= next) ≡ ok y
    → (x : X) × (next x ≡ ok y) × (first ≡ ok x)
>>=-eq-ok (err e) next chain = cc
>>=-eq-ok (ok x) next chain = (x, chain, refl)

pub Result-cases {ℓ} :
    {E A : Type ℓ} (m : Result E A) → ((a : A) × (m ≡ ok a)) ⊎ ((e : E) × (m ≡ err e))
Result-cases (ok a) = inl (a, refl)
Result-cases (err e) = inr (e, refl)

-- ===== src/Prelude/Decimal/RoundTrip.antt =====
-- Reading a printed number gives the number back.
use Prim.Native.Char.{code}
use Prim.Native.Nat.{ℕ, zero, suc, ◌+◌, ◌*◌, ◌/◌, ◌%◌, ◌<◌, ◌≤◌}
use Prim.Native.String.{String}
use mathlib.Core.Path.{◌≡◌, refl}
use mathlib.Core.Option.{some}
use mathlib.Core.Logic.{inl, inr}
use native.Mathlib.Omega.{arith}
use myference.Prelude.Tests.{ltb, Bool-cases}
use myference.Prelude.Int.{pos}
use myference.Prelude.Decimal.{read_digits, digit_char, show_digits, read_nat, show_nat, set_string}

pub code-digit_char : (n : ℕ) → n < 10 → code (digit_char n) ≡ b'0' + n
code-digit_char zero h = refl
code-digit_char (suc zero) h = refl
code-digit_char (suc (suc zero)) h = refl
code-digit_char (suc (suc (suc zero))) h = refl
code-digit_char (suc (suc (suc (suc zero)))) h = refl
code-digit_char (suc (suc (suc (suc (suc zero))))) h = refl
code-digit_char (suc (suc (suc (suc (suc (suc zero)))))) h = refl
code-digit_char (suc (suc (suc (suc (suc (suc (suc zero))))))) h = refl
code-digit_char (suc (suc (suc (suc (suc (suc (suc (suc zero)))))))) h = refl
code-digit_char (suc (suc (suc (suc (suc (suc (suc (suc (suc n))))))))) h = omega arith

read_digits-digit :
    (acc n : ℕ) (s : String)
    → n < 10
    → read_digits acc (String.◌∷◌ (digit_char n) s) ≡ read_digits (acc * 10 + n) s
unfolding read_digits
read_digits-digit acc n s h = ground (arith, code-digit_char n h)

read_digits-show_digits :
    (fuel n : ℕ) (rest : String)
    → n ≤ fuel
    → read_digits 0 (show_digits fuel n rest) ≡ read_digits n rest
unfolding show_digits
read_digits-show_digits zero n rest h = ground (arith, read_digits-digit 0 n rest)
read_digits-show_digits (suc fuel) n rest h =
    let last = String.◌∷◌ (digit_char (n % 10)) rest in
    ground (
      arith,
      read_digits-digit 0 n rest,
      read_digits-show_digits fuel (n / 10) last,
      read_digits-digit (n / 10) (n % 10) rest,
    )

-- What is printed has a first character, so the test for an empty text passes.
read_nat-show_digits :
    (fuel n : ℕ) (rest : String)
    → read_nat (show_digits fuel n rest) ≡ read_digits 0 (show_digits fuel n rest)
unfolding show_digits read_nat
read_nat-show_digits zero n rest = refl
read_nat-show_digits (suc fuel) n rest = elim (Bool-cases (ltb n 10)) [
  | inl small ↦ rw (small, show_digits) refl
  | inr large ↦
      rw (large, show_digits)
        (read_nat-show_digits fuel (n / 10) (String.◌∷◌ (digit_char (n % 10)) rest))
]

-- A printed number reads as itself.
pub read_nat-show_nat : (n : ℕ) → read_nat (show_nat n) ≡ some n
unfolding show_nat read_digits
read_nat-show_nat n = ground (arith, read_nat-show_digits n n "", read_digits-show_digits n n "")

-- A text of digits only has no sign.
set_string-digits : (s : String) (n : ℕ) → read_nat s ≡ some n → set_string s ≡ some (pos n)
unfolding set_string read_nat read_digits
set_string-digits String.[] n h = ground arith
set_string-digits (String.◌∷◌ c s) n h = ground arith

pub set_string-show_nat : (n : ℕ) → set_string (show_nat n) ≡ some (pos n)
set_string-show_nat n = set_string-digits (show_nat n) n (read_nat-show_nat n)

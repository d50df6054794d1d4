-- ===== src/Prelude/Decimal.antt =====
-- Decimal texts: `big.Int.SetString(s, 10)` and `big.Int.String()`.
pub mod RoundTrip
use Prim.Native.Char.{Char, char, code}
use Prim.Native.Nat.{ℕ, zero, suc, ◌+◌, ◌-◌, ◌*◌, ◌/◌, ◌%◌}
use Prim.Native.String.{String}
use mathlib.Core.Path.{◌≡◌, refl}
use mathlib.Core.Bool.{Bool, true, false, ◌&&◌}
use mathlib.Core.Option
use mathlib.Core.Option.{Option, none, some}
use myference.Prelude.Tests.{leb, ltb, ◌==◌, if◌then◌else◌}
use myference.Prelude.Int.{ℤ, pos, negsuc, neg}

abbrev pub is_digit : ℕ → Bool
is_digit c = leb b'0' c && leb c b'9'

-- The digits of a text after those that make up `acc`; `none` at any other character.
unfoldable pub read_digits : ℕ → String → Option ℕ
read_digits acc String.[] = some acc
read_digits acc (String.◌∷◌ c s) =
    let rest = read_digits (acc * 10 + (code c - b'0')) s in
    if is_digit (code c) then rest else none

-- One or more digits.
unfoldable pub read_nat : String → Option ℕ
unfolding read_digits
read_nat String.[] = none
read_nat (String.◌∷◌ c s) = read_digits 0 (String.◌∷◌ c s)

-- `SetString(s, 10)`: an optional sign, then digits.
unfoldable pub set_string : String → Option ℤ
unfolding read_nat
set_string String.[] = none
set_string (String.◌∷◌ c s) =
    if code c == b'-'
    then Option.map neg (read_nat s)
    else if code c == b'+'
    then Option.map pos (read_nat s)
    else Option.map pos (read_nat (String.◌∷◌ c s))

-- The character of a digit.
abbrev pub digit_char : ℕ → Char
digit_char zero = char b'0' tt
digit_char (suc zero) = char b'1' tt
digit_char (suc (suc zero)) = char b'2' tt
digit_char (suc (suc (suc zero))) = char b'3' tt
digit_char (suc (suc (suc (suc zero)))) = char b'4' tt
digit_char (suc (suc (suc (suc (suc zero))))) = char b'5' tt
digit_char (suc (suc (suc (suc (suc (suc zero)))))) = char b'6' tt
digit_char (suc (suc (suc (suc (suc (suc (suc zero))))))) = char b'7' tt
digit_char (suc (suc (suc (suc (suc (suc (suc (suc zero)))))))) = char b'8' tt
digit_char _ = char b'9' tt

-- The digits of `n`, before `rest`. Each round divides by ten, so `n` rounds are enough.
unfoldable pub show_digits : ℕ → ℕ → String → String
show_digits zero n rest = String.◌∷◌ (digit_char n) rest
show_digits (suc fuel) n rest = elim (ltb n 10) [
  | true ↦ String.◌∷◌ (digit_char n) rest
  | false ↦ show_digits fuel (n / 10) (String.◌∷◌ (digit_char (n % 10)) rest)
]

-- `String()` of a number that is not negative.
unfoldable pub show_nat : ℕ → String
unfolding show_digits
show_nat n = show_digits n n ""

-- `String()`
unfoldable pub show_int : ℤ → String
unfolding show_nat
show_int (pos n) = show_nat n
show_int (negsuc n) = String.◌∷◌ (char b'-' tt) (show_nat (n + 1))

reads : set_string "-120" ≡ some (neg 120)
unfolding set_string
reads = refl

shows : show_nat 1200000000000000000000000000 ≡ "1200000000000000000000000000"
unfolding show_nat
shows = refl

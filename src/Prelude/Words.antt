-- ===== src/Prelude/Words.antt =====
-- Go's `uint64`, and the part of `math/bits` that the program uses.
use Prim.Native.Nat.{ℕ, ◌+◌, ◌*◌, ◌/◌, ◌%◌, ◌<◌}

abbrev pub u64_mod : ℕ
u64_mod = 18446744073709551616

abbrev pub max_uint64 : ℕ
max_uint64 = 18446744073709551615

abbrev pub IsUint64 : ℕ → Type 0
IsUint64 n = n < u64_mod

abbrev pub u64 : ℕ → ℕ
u64 n = n % u64_mod

-- `bits.Add64(x, y, 0)`: the sum and the carry.
abbrev pub add64 : ℕ → ℕ → ℕ × ℕ
add64 x y = ((x + y) % u64_mod, (x + y) / u64_mod)

-- `bits.Mul64`: the high and the low word.
abbrev pub mul64 : ℕ → ℕ → ℕ × ℕ
mul64 x y = ((x * y) / u64_mod, (x * y) % u64_mod)

-- `bits.Div64`, for a divisor above `hi` (it panics otherwise): the quotient and the remainder.
abbrev pub div64 : ℕ → ℕ → ℕ → ℕ × ℕ
div64 hi lo y = ((hi * u64_mod + lo) / y, (hi * u64_mod + lo) % y)

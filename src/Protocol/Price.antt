-- ===== src/Protocol/Price.antt =====
-- protocol/v1/price.go: the charge for one request, in uint64 arithmetic.
pub mod Exact
use myference.Prelude.{ℕ, ◌||◌, ltb, leb, ◌==◌, if◌then◌else◌}
use myference.Prelude.Words.{add64, mul64, div64}
use myference.Prelude.Result.{Result, ok, err, ◌>>=◌}

pub data PriceError : Type 0 where
  overflow maximum_exceeded : PriceError

abbrev pub tokens_per_million : ℕ
tokens_per_million = 1000000

abbrev pub millis_per_second : ℕ
millis_per_second = 1000

pub record Price : Type 0 where
  pub input_per_million : ℕ
  pub output_per_million : ℕ
  pub compute_per_second : ℕ

pub multiply_divide_ceil : ℕ → ℕ → ℕ → Result PriceError ℕ
multiply_divide_ceil units rate denominator =
    let (hi, lo) = mul64 units rate in
    let (quotient, remainder) = div64 hi lo denominator in
    let (rounded, carry) = add64 quotient 1 in
    if units == 0 || rate == 0
    then ok 0
    else if leb denominator hi
    then err overflow
    else if remainder == 0
    then ok quotient
    else if carry == 0
    then ok rounded
    else err overflow

-- The sum of the three parts, and the tests at the end of `Charge`.
total_charge : ℕ → ℕ → ℕ → ℕ → Result PriceError ℕ
total_charge input output compute max_wei =
    let (subtotal, carry) = add64 input output in
    let (total, carry') = add64 subtotal compute in
    if ltb 0 carry
    then err overflow
    else if ltb 0 carry'
    then err overflow
    else if ltb max_wei total
    then err maximum_exceeded
    else ok total

pub charge : Price → ℕ → ℕ → ℕ → ℕ → Result PriceError ℕ
unfolding total_charge
charge p input_tokens output_tokens compute_millis max_wei = do
  input ← multiply_divide_ceil input_tokens p.input_per_million tokens_per_million
  output ← multiply_divide_ceil output_tokens p.output_per_million tokens_per_million
  compute ← multiply_divide_ceil compute_millis p.compute_per_second millis_per_second
  total_charge input output compute max_wei

-- ===== src/Protocol/Price/Exact.antt =====
-- The uint64 arithmetic of `Charge` computes the exact charge, or says that it does not fit.
use native.Mathlib.Nat.{
  div-add-mod', mul-zero, zero-mul, div-eq_of_lt-le, le-div_iff_mul-le, div-lt_iff_lt-mul, mod-lt,
}
use myference.Prelude.{ℕ, ◌+◌, ◌-◌, ◌*◌, ◌/◌, ◌%◌, ◌<◌, ◌≤◌, ◌≡◌, ◌≢◌, ltb, if◌then◌else◌, arith}
use myference.Prelude.Words.{u64_mod}
use myference.Prelude.Result.{ok, err}
use myference.Protocol.Price.{
  overflow, maximum_exceeded, Price, multiply_divide_ceil, total_charge, charge,
}

-- `n / d`, rounded up.
abbrev pub ceil_div : ℕ → ℕ → ℕ
ceil_div n d = (n + (d - 1)) / d

-- Where `q` is the quotient with remainder `r`, the rounded quotient is `q` or `q + 1`.
pub ceil_div_even : (n d : ℕ) → 0 < d → n % d ≡ 0 → ceil_div n d ≡ n / d
ceil_div_even n d h e =
    div-eq_of_lt-le d (omega (arith, div-add-mod' n d)) (omega (arith, div-add-mod' n d))

pub ceil_div_odd : (n d : ℕ) → 0 < d → n % d ≢ 0 → ceil_div n d ≡ n / d + 1
ceil_div_odd n d h e =
    div-eq_of_lt-le d (omega (arith, div-add-mod' n d))
      (omega (arith, div-add-mod' n d, mod-lt n h))

-- The quotient passes a word if the high word is not below the divisor.
high_word : (n d : ℕ) → 0 < d → d ≤ n / u64_mod → u64_mod ≤ n / d
high_word n d h le = (le-div_iff_mul-le h).1 (omega arith)

low_word : (n d : ℕ) → 0 < d → n / u64_mod < d → n / d < u64_mod
low_word n d h lt = (div-lt_iff_lt-mul h).1 (omega arith)

zero_ceil : (d : ℕ) → 0 < d → ceil_div 0 d ≡ 0
zero_ceil d h = div-eq_of_lt-le d (omega arith) (omega arith)

-- `multiply_divide_ceil` is the exact quotient, rounded up, or `overflow` if that is no uint64.
pub multiply_divide_ceil_lem :
    (units rate denominator : ℕ)
    → 0 < denominator
    → multiply_divide_ceil units rate denominator ≡ (
        let exact = ceil_div (units * rate) denominator in
        if ltb exact u64_mod then ok exact else err overflow)
unfolding multiply_divide_ceil
multiply_divide_ceil_lem units rate d h =
    let n = units * rate in
    rw (div-add-mod' n u64_mod) (
      ground (
        arith,
        ceil_div_even n d h,
        ceil_div_odd n d h,
        high_word n d h,
        low_word n d h,
        mul-zero units,
        zero-mul rate,
        zero_ceil d h,
      ))

-- The charge with no bound on its size.
abbrev pub exact_charge : Price → ℕ → ℕ → ℕ → ℕ
exact_charge p input_tokens output_tokens compute_millis =
    ceil_div (input_tokens * p.input_per_million) 1000000
    + ceil_div (output_tokens * p.output_per_million) 1000000
    + ceil_div (compute_millis * p.compute_per_second) 1000

sum_of_parts :
    (a b c max : ℕ)
    → a < u64_mod
    → b < u64_mod
    → c < u64_mod
    → total_charge a b c max ≡ (
        if ltb (a + b + c) u64_mod
        then (if ltb max (a + b + c) then err maximum_exceeded else ok (a + b + c))
        else err overflow)
unfolding total_charge
sum_of_parts a b c max ha hb hc = ground arith

-- `Charge` returns the exact charge if it is a uint64 and at most the maximum. It reports
-- `overflow` exactly if the exact charge is no uint64, and `maximum_exceeded` if it is one above
-- the maximum.
pub charge_exact :
    (p : Price) (input_tokens output_tokens compute_millis max_wei : ℕ)
    → charge p input_tokens output_tokens compute_millis max_wei ≡ (
        let total = exact_charge p input_tokens output_tokens compute_millis in
        if ltb total u64_mod
        then (if ltb max_wei total then err maximum_exceeded else ok total)
        else err overflow)
unfolding charge
charge_exact p i o c max =
    rw
      (
        multiply_divide_ceil_lem i p.input_per_million 1000000 (omega arith),
        multiply_divide_ceil_lem o p.output_per_million 1000000 (omega arith),
        multiply_divide_ceil_lem c p.compute_per_second 1000 (omega arith),
      )
      (ground (
        arith,
        sum_of_parts (ceil_div (i * p.input_per_million) 1000000)
            (ceil_div (o * p.output_per_million) 1000000) (ceil_div (c * p.compute_per_second) 1000)
            max,
      ))

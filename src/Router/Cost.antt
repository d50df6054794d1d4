-- ===== src/Router/Cost.antt =====
-- The worst-case cost of a request bounds the charge of every use within its limits.
use myference.Prelude.{ℕ, ◌+◌, ◌*◌, ◌≤◌, ◌≡◌, ◌⊎◌, none, some, ltb, if◌then◌else◌, arith}
use myference.Prelude.Words.{u64_mod}
use myference.Prelude.Result.{ok, err}
use myference.Protocol.Price.Exact.{ceil_div}
use myference.Router.{no_eligible_provider, Candidate, parse_rate, worst_case_cost}

-- The three rates of a candidate, as numbers.
pub record HasRates (c : Candidate) (input output compute : ℕ) : Type 0 where
  pub input_rate : parse_rate c.input_per_million ≡ some input
  pub output_rate : parse_rate c.output_per_million ≡ some output
  pub compute_rate : parse_rate c.compute_per_second ≡ some compute

-- The cost with no bound on its size.
abbrev pub exact_cost : ℕ → ℕ → ℕ → ℕ → ℕ → ℕ → ℕ
exact_cost input output compute input_tokens output_tokens millis =
    ceil_div (input_tokens * input) 1000000
    + ceil_div (output_tokens * output) 1000000
    + ceil_div (millis * compute) 1000

-- The cost of a candidate with three valid rates is exact if it is a uint64; if it is none, the
-- candidate cannot serve.
pub worst_case_cost_exact :
    (c : Candidate) {input output compute : ℕ} (input_tokens output_tokens millis : ℕ)
    → HasRates c input output compute
    → worst_case_cost c input_tokens output_tokens millis ≡ (
        let cost = exact_cost input output compute input_tokens output_tokens millis in
        if ltb cost u64_mod then ok cost else err no_eligible_provider)
unfolding worst_case_cost
worst_case_cost_exact c i o m h = ground (arith, h.input_rate, h.output_rate, h.compute_rate)

-- A candidate with a rate that is no decimal uint256 has no cost.
pub worst_case_cost_invalid :
    (c : Candidate) (input_tokens output_tokens millis : ℕ)
    → (parse_rate c.input_per_million ≡ none)
      ⊎ (parse_rate c.output_per_million ≡ none)
      ⊎ (parse_rate c.compute_per_second ≡ none)
    → worst_case_cost c input_tokens output_tokens millis ≡ err no_eligible_provider
unfolding worst_case_cost
worst_case_cost_invalid c i o m h = ground arith

ceil_million_mono : (a b : ℕ) → a ≤ b → ceil_div a 1000000 ≤ ceil_div b 1000000
ceil_million_mono a b h = omega arith

ceil_thousand_mono : (a b : ℕ) → a ≤ b → ceil_div a 1000 ≤ ceil_div b 1000
ceil_thousand_mono a b h = omega arith

mul_mono_left : (a b r : ℕ) → a ≤ b → a * r ≤ b * r
mul_mono_left a b r h = grind arith

-- The exact cost grows with the use.
pub exact_cost_mono :
    (input output compute : ℕ) {i o m i' o' m' : ℕ}
    → i ≤ i'
    → o ≤ o'
    → m ≤ m'
    → exact_cost input output compute i o m ≤ exact_cost input output compute i' o' m'
exact_cost_mono input output compute {i} {o} {m} {i'} {o'} {m'} hi ho hm = omega (
  arith,
  ceil_million_mono _ _ (mul_mono_left i i' input hi),
  ceil_million_mono _ _ (mul_mono_left o o' output ho),
  ceil_thousand_mono _ _ (mul_mono_left m m' compute hm),
)

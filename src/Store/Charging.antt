-- ===== src/Store/Charging.antt =====
-- The three computations of a charge agree: `Price.Charge` of the protocol, `WorstCaseCost` of the
-- router, and `exactCharge` of the store.
use mathlib.Core.Option
use myference.Prelude.{ℕ, ◌≤◌, String, ◌≡◌, ◌↔◌, Option, none, some, ltb, if◌then◌else◌, arith}
use myference.Prelude.Words.{u64_mod}
use myference.Prelude.Int.{ℤ, pos, negsuc}
use myference.Prelude.Decimal.{set_string}
use myference.Prelude.Result.{ok, err}
use myference.Protocol.Price
use myference.Protocol.Price.{Price}
use myference.Protocol.Price.Exact.{charge_exact}
use myference.Router.{Candidate, parse_rate, fits_uint256, worst_case_cost}
use myference.Router.Cost.{HasRates, exact_cost, exact_cost_mono, worst_case_cost_exact}
use myference.Store.ExactCharge.{invalid_receipt, exact_charge}

eq-pos_of_fits : (z : Option ℤ) (n : ℕ) → Option.bind z fits_uint256 ≡ some n → z ≡ some (pos n)
unfolding Option.bind
eq-pos_of_fits none n h = cc
eq-pos_of_fits (some (pos m)) n h = ground arith
eq-pos_of_fits (some (negsuc m)) n h = cc

-- A rate that the router reads is the same number to `SetString`.
set_string-parse_rate : (s : String) {n : ℕ} → parse_rate s ≡ some n → set_string s ≡ some (pos n)
unfolding parse_rate
set_string-parse_rate String.[] h = cc
set_string-parse_rate (String.◌∷◌ c s) {n} h =
    ground (arith, eq-pos_of_fits (set_string (String.◌∷◌ c s)) n)

-- `exactCharge` at rates that the router reads is the exact cost, or refused if that is no uint64.
pub exact_charge_exact :
    (c : Candidate) {input output compute : ℕ} (i o m : ℕ)
    → HasRates c input output compute
    → exact_charge i o m c.input_per_million c.output_per_million c.compute_per_second ≡ (
        let cost = exact_cost input output compute i o m in
        if ltb cost u64_mod then ok cost else err invalid_receipt)
unfolding exact_charge
exact_charge_exact c i o m h = ground (
  arith,
  set_string-parse_rate _ h.input_rate,
  set_string-parse_rate _ h.output_rate,
  set_string-parse_rate _ h.compute_rate,
)

-- At rates that the router reads, use within limits that have a worst-case cost always has a
-- charge, which is at most that cost.
pub exact_charge_total :
    (c : Candidate) {input output compute : ℕ} (i o m i' o' m' : ℕ) {reserved : ℕ}
    → HasRates c input output compute
    → worst_case_cost c i' o' m' ≡ ok reserved
    → i ≤ i'
    → o ≤ o'
    → m ≤ m'
    → (total : ℕ) × (exact_charge i o m c.input_per_million c.output_per_million
          c.compute_per_second
        ≡ ok total)
      × (total ≤ reserved)
exact_charge_total c {input} {output} {compute} i o m i' o' m' h w hi ho hm =
    let total = exact_cost input output compute i o m in
    (
      total,
      ground (
        arith,
        worst_case_cost_exact c i' o' m' h,
        exact_charge_exact c i o m h,
        exact_cost_mono input output compute hi ho hm,
      ),
      ground (
        arith,
        worst_case_cost_exact c i' o' m' h,
        exact_cost_mono input output compute hi ho hm,
      ),
    )

-- `Price.Charge` and `exactCharge` agree: at the rates of one price and with any maximum that the
-- charge does not pass, they return the same total.
pub charge-exact_charge :
    (p : Price) (c : Candidate) (i o m max : ℕ) {total : ℕ}
    → HasRates c p.input_per_million p.output_per_million p.compute_per_second
    → total ≤ max
    → (Price.charge p i o m max ≡ ok total) ↔ (
        exact_charge i o m c.input_per_million c.output_per_million c.compute_per_second ≡ ok total)
charge-exact_charge p c i o m max h le = (
  λ e. ground (arith, charge_exact p i o m max, exact_charge_exact c i o m h),
  λ e. ground (arith, charge_exact p i o m max, exact_charge_exact c i o m h),
)

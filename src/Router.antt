-- ===== src/Router.antt =====
-- server/internal/router/router.go: the cost of a request and the choice of a provider.
pub mod Order
mod TextOrder
mod Ranking
pub mod Selection
pub mod Cost
use Prim.Native.Char.{code}
use Prim.Native.Nat.{Ordering}
use Prim.Native.String.{compare}
use mathlib.Core.Option
use text.Mathlib.Text.{is_lt}
use myference.Prelude.{
  ℕ, ◌+◌, ◌-◌, ◌*◌, ◌/◌, ◌^◌, String, Bool, true, false, not, ◌&&◌, ◌||◌, Option, none, some, List,
  [], ◌∷◌, ltb, ◌==◌, str_eq, is_empty, is_blank, any, all, if◌then◌else◌,
}
use myference.Prelude.Words.{u64_mod}
use myference.Prelude.Int.{ℤ, pos, negsuc}
use myference.Prelude.Decimal.{is_digit, set_string, show_nat}
use myference.Prelude.Result.{Result, ok, err, ◌>>=◌}

-- `index_panic` is the run-time panic of `eligible[0]`.
pub data RouteError : Type 0 where
  no_eligible_provider insufficient_budget index_panic : RouteError

pub record Request : Type 0 where
  pub model : String
  pub capabilities : List String
  pub maximum_spend : ℕ
  pub session_balance : ℕ
  pub pin_machine_id : String

pub record Candidate : Type 0 where
  pub machine_id : String
  pub offer_id : String
  pub model : String
  pub capabilities : List String
  pub confirmed_bond : Bool
  pub healthy : Bool
  pub capacity : ℕ
  pub maximum_cost : ℕ
  pub price_version : ℕ
  pub latency_milliseconds : ℕ
  pub success_basis_points : ℕ
  pub reputation : ℕ
  pub input_per_million : String
  pub output_per_million : String
  pub compute_per_second : String

abbrev pub uint256_mod : ℕ
uint256_mod = 2 ^ 256

-- The loop over `value`.
unfoldable pub all_digits : String → Bool
all_digits String.[] = true
all_digits (String.◌∷◌ c s) = is_digit (code c) && all_digits s

-- `rate.BitLen() > 256`. The sign is `pos` here, as every character is a digit.
abbrev pub fits_uint256 : ℤ → Option ℕ
fits_uint256 (pos n) = if ltb n uint256_mod then some n else none
fits_uint256 (negsuc n) = none

unfoldable pub parse_rate : String → Option ℕ
parse_rate String.[] = none
parse_rate (String.◌∷◌ c s) =
    if not (is_empty s) && code c == b'0'
    then none
    else if not (all_digits (String.◌∷◌ c s))
    then none
    else Option.bind (set_string (String.◌∷◌ c s)) fits_uint256

unfoldable pub valid_rate : String → Bool
valid_rate value = elim (parse_rate value) [ none ↦ false | some _ ↦ true ]

-- One item of the loop of `WorstCaseCost`.
pub record CostItem : Type 0 where
  pub units : ℕ
  pub rate : String
  pub divisor : ℕ

unfoldable pub add_costs : ℕ → List CostItem → Result RouteError ℕ
add_costs total [] = if ltb total u64_mod then ok total else err no_eligible_provider
add_costs total (item ∷ items) = elim (parse_rate item.rate) [
  | none ↦ err no_eligible_provider
  | some rate ↦ add_costs (total + (item.units * rate + (item.divisor - 1)) / item.divisor) items
]

unfoldable pub worst_case_cost : Candidate → ℕ → ℕ → ℕ → Result RouteError ℕ
unfolding add_costs
worst_case_cost c maximum_input_tokens maximum_output_tokens maximum_compute_milliseconds =
    add_costs 0 (
      record { units = maximum_input_tokens; rate = c.input_per_million; divisor = 1000000 }
      ∷ record { units = maximum_output_tokens; rate = c.output_per_million; divisor = 1000000 }
      ∷ record { units = maximum_compute_milliseconds; rate = c.compute_per_second; divisor = 1000 }
      ∷ [])

unfoldable pub some_rate : List String → Bool
some_rate [] = false
some_rate (value ∷ values) = elim (parse_rate value) [
  | none ↦ false
  | some rate ↦ if not (rate == 0) then true else some_rate values
]

unfoldable pub has_pricing : Candidate → Bool
unfolding some_rate
has_pricing c = some_rate (c.input_per_million ∷ c.output_per_million ∷ c.compute_per_second ∷ [])

unfoldable pub add_rates : ℕ → List String → Result RouteError String
add_rates total [] = ok (show_nat total)
add_rates total (value ∷ values) = elim (parse_rate value) [
  | none ↦ err no_eligible_provider
  | some rate ↦ add_rates (total + rate) values
]

unfoldable pub sum_rates : String → String → String → Result RouteError String
unfolding add_rates
sum_rates input output compute = add_rates 0 (input ∷ output ∷ compute ∷ [])

unfoldable pub contains_all : List String → List String → Bool
contains_all have [] = true
contains_all have (wanted ∷ required) =
    any (λ capability. str_eq capability wanted) have && contains_all have required

-- The tests of the loop of `Select`, in order.
unfoldable pub pinned_elsewhere : Request → Candidate → Bool
pinned_elsewhere r c = not (is_empty r.pin_machine_id) && not (str_eq c.machine_id r.pin_machine_id)

unfoldable pub unsuitable : Request → Candidate → Bool
unsuitable r c =
    is_empty c.machine_id
    || is_empty c.offer_id
    || not (str_eq c.model r.model)
    || not c.confirmed_bond
    || not c.healthy
    || c.capacity == 0
    || c.maximum_cost == 0
    || not (contains_all c.capabilities r.capabilities)

unfoldable pub over_budget : Request → Candidate → Bool
over_budget r c = ltb r.maximum_spend c.maximum_cost || ltb r.session_balance c.maximum_cost

-- The loop of `Select`: the eligible candidates, and `budgetBlocked`.
unfoldable pub scan : Request → List Candidate → List Candidate × Bool
scan r [] = ([], false)
scan r (c ∷ cs) =
    let (eligible, blocked) = scan r cs in
    if pinned_elsewhere r c
    then (eligible, blocked)
    else if unsuitable r c
    then (eligible, blocked)
    else if over_budget r c
    then (eligible, true)
    else (c ∷ eligible, blocked)

-- The comparison that is handed to `sort.Slice`.
unfoldable pub less : Candidate → Candidate → Bool
less left right =
    if not (left.maximum_cost == right.maximum_cost)
    then ltb left.maximum_cost right.maximum_cost
    else if not (left.latency_milliseconds == right.latency_milliseconds)
    then ltb left.latency_milliseconds right.latency_milliseconds
    else if not (left.success_basis_points == right.success_basis_points)
    then ltb right.success_basis_points left.success_basis_points
    else if not (left.reputation == right.reputation)
    then ltb right.reputation left.reputation
    else is_lt (compare left.machine_id right.machine_id)

-- `eligible[0]`
abbrev pub first : List Candidate → Result RouteError Candidate
first [] = err index_panic
first (c ∷ _) = ok c

abbrev pub choose :
    ((Candidate → Candidate → Bool) → List Candidate → List Candidate)
    → List Candidate
    → Bool
    → Result RouteError Candidate
choose sort [] true = err insufficient_budget
choose sort [] false = err no_eligible_provider
choose sort (c ∷ cs) blocked = first (sort less (c ∷ cs))

-- `sort` is `sort.Slice`, which does not say how it orders equal elements.
unfoldable pub select :
    ((Candidate → Candidate → Bool) → List Candidate → List Candidate)
    → Request
    → List Candidate
    → Result RouteError Candidate
unfolding scan
select sort r candidates =
    let (eligible, blocked) = scan r candidates in
    if is_blank r.model || r.maximum_spend == 0
    then err no_eligible_provider
    else choose sort eligible blocked

unfoldable pub can_retry : Bool → Bool
can_retry output_started = not output_started

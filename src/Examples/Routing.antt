-- ===== src/Examples/Routing.antt =====
-- Prices, costs and the choice of a provider at concrete inputs.
use mathlib.Core.List.{Mem, mem-cons_self}
use mathlib.Core.Option
use myference.Prelude.{ℕ, ◌≤◌, ◌↔◌, true, false, some, List, [], ◌∷◌, ◌≡◌, refl, arith}
use myference.Prelude.Result.{ok, err}
use myference.Protocol.Price.{Price, maximum_exceeded, charge}
use myference.Protocol.Price.Exact.{charge_exact}
use myference.Prelude.{is_blank}
use myference.Prelude.Text.{trim_space, trim_left, trim_right}
use myference.Prelude.Decimal.{set_string, read_nat, read_digits}
use myference.Router.{
  all_digits, add_costs, scan, pinned_elsewhere, unsuitable, over_budget, contains_all, Request,
  Candidate, insufficient_budget, parse_rate, worst_case_cost, select, less,
}
use myference.Router.Cost.{HasRates}
use myference.Router.Selection.{select_best, select_error, error_of, suits, is_eligible}
use myference.Store.ExactCharge.{exact_charge}
use myference.Store.Charging.{exact_charge_exact, exact_charge_total, charge-exact_charge}
use myference.Examples.Sorting.{insertion_sort, insert_sorted, insertion_sort-IsSort}

abbrev pub plain_candidate : Candidate
plain_candidate = record {
  machine_id = "m1";
  offer_id = "o1";
  model = "llama";
  capabilities = "text" ∷ [];
  confirmed_bond = true;
  healthy = true;
  capacity = 1;
  maximum_cost = 50;
  price_version = 1;
  latency_milliseconds = 20;
  success_basis_points = 9000;
  reputation = 3;
  input_per_million = "3000000";
  output_per_million = "7000000";
  compute_per_second = "1";
}

abbrev cheap_candidate : Candidate
cheap_candidate = record plain_candidate { machine_id = "m2"; maximum_cost = 40 }

abbrev no_rate_candidate : Candidate
no_rate_candidate = record plain_candidate { input_per_million = "03" }

abbrev small_request : Request
small_request = record {
  model = "llama";
  capabilities = "text" ∷ [];
  maximum_spend = 60;
  session_balance = 100;
  pin_machine_id = "";
}

abbrev poor_request : Request
poor_request = record small_request { maximum_spend = 30 }

abbrev both : List Candidate
both = plain_candidate ∷ cheap_candidate ∷ []

abbrev one_price : Price
one_price = record {
  input_per_million = 3000000;
  output_per_million = 7000000;
  compute_per_second = 1;
}

plain_rates : HasRates plain_candidate 3000000 7000000 1
unfolding all_digits set_string read_nat read_digits parse_rate Option.bind
plain_rates = record { input_rate = refl; output_rate = refl; compute_rate = refl }

charge_exact_example : charge one_price 2 1 1500 10 ≡ err maximum_exceeded
charge_exact_example = charge_exact one_price 2 1 1500 10

select_best_example :
    Mem cheap_candidate both
    × (is_eligible small_request cheap_candidate ≡ true)
    × (less plain_candidate cheap_candidate ≡ false)
unfolding select scan pinned_elsewhere unsuitable over_budget contains_all suits less insertion_sort
    insert_sorted is_eligible is_blank trim_space trim_left trim_right
select_best_example =
    select_best (λ less xs. insertion_sort less xs) insertion_sort-IsSort small_request both
      plain_candidate refl mem-cons_self refl

select_error_example :
    error_of (select (λ less xs. insertion_sort less xs) poor_request both)
    ≡ some insufficient_budget
unfolding is_eligible suits pinned_elsewhere unsuitable over_budget contains_all is_blank trim_space
    trim_left trim_right
select_error_example =
    select_error (λ less xs. insertion_sort less xs) insertion_sort-IsSort poor_request both

exact_charge_exact_example : exact_charge 2 1 1500 "3000000" "7000000" "1" ≡ ok 15
exact_charge_exact_example = exact_charge_exact plain_candidate 2 1 1500 plain_rates

exact_charge_total_example :
    (total : ℕ) × (exact_charge 2 0 1500 "3000000" "7000000" "1" ≡ ok total) × (total ≤ 15)
unfolding worst_case_cost add_costs all_digits set_string read_nat read_digits parse_rate
    Option.bind
exact_charge_total_example =
    exact_charge_total plain_candidate 2 0 1500 2 1 1500 plain_rates refl (omega arith)
      (omega arith) (omega arith)

charge-exact_charge_example :
    (charge one_price 2 1 1500 20 ≡ ok 15) ↔ (exact_charge 2 1 1500 "3000000" "7000000" "1" ≡ ok 15)
charge-exact_charge_example =
    charge-exact_charge one_price plain_candidate 2 1 1500 20 plain_rates (omega arith)

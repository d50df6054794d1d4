-- ===== src/Router/Ranking.antt =====
-- `less` ranks by cost, latency, success rate, reputation and machine, which is a strict weak order.
use Prim.Native.Nat.{Ordering, compare}
use Prim.Native.String
use text.Mathlib.Text.{is_lt}
use myference.Prelude.{◌≡◌, arith}
use myference.Router.{Candidate, less}
use myference.Router.Order.{
  lex, IsComparison, lex-IsComparison, compare-IsComparison, descending-IsComparison, IsOrder,
}
use myference.Router.TextOrder.{text-IsComparison}

abbrev by_cost : Candidate → Candidate → Ordering
by_cost a b = compare a.maximum_cost b.maximum_cost

abbrev by_latency : Candidate → Candidate → Ordering
by_latency a b = compare a.latency_milliseconds b.latency_milliseconds

abbrev by_success : Candidate → Candidate → Ordering
by_success a b = compare b.success_basis_points a.success_basis_points

abbrev by_reputation : Candidate → Candidate → Ordering
by_reputation a b = compare b.reputation a.reputation

abbrev by_machine : Candidate → Candidate → Ordering
by_machine a b = String.compare a.machine_id b.machine_id

ranking : Candidate → Candidate → Ordering
ranking = lex by_cost (lex by_latency (lex by_success (lex by_reputation by_machine)))

ranking-IsComparison : IsComparison ranking
unfolding ranking
ranking-IsComparison =
    lex-IsComparison by_cost (lex by_latency (lex by_success (lex by_reputation by_machine)))
      (compare-IsComparison (λ c. c.maximum_cost))
      (lex-IsComparison by_latency (lex by_success (lex by_reputation by_machine))
        (compare-IsComparison (λ c. c.latency_milliseconds))
        (lex-IsComparison by_success (lex by_reputation by_machine)
          (descending-IsComparison (λ c. c.success_basis_points))
          (lex-IsComparison by_reputation by_machine (descending-IsComparison (λ c. c.reputation))
            (text-IsComparison (λ c. c.machine_id)))))

less-ranking : (a b : Candidate) → less a b ≡ is_lt (ranking a b)
unfolding less ranking
less-ranking a b = ground arith

pub less-IsOrder : IsOrder less
less-IsOrder = record {
  asymmetric =
      λ a b h. ground (arith, less-ranking a b, less-ranking b a, ranking-IsComparison.flips a b);
  not_less_trans = λ a b d h k. ground (
    arith,
    less-ranking b a,
    less-ranking d b,
    less-ranking d a,
    ranking-IsComparison.flips a b,
    ranking-IsComparison.flips b d,
    ranking-IsComparison.flips a d,
    ranking-IsComparison.lt_trans a b d,
    ranking-IsComparison.eq_left a b d,
    ranking-IsComparison.eq_left d b a,
  );
}

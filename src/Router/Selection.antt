-- ===== src/Router/Selection.antt =====
-- `Select` returns the best of the candidates that suit the request and its budget.
use mathlib.Core.Bool.{Bool-set}
use mathlib.Core.HLevel.{×_prop}
use mathlib.Core.List.{
  Mem, Mem-prop, mem-cons_of_mem, not-mem-nil, mem-cons, mem-cons_self, rel_of_Pairwise-cons,
}
use mathlib.Core.List.Perm
use mathlib.Core.Logic.Or
use myference.Prelude.{
  Bool, true, false, not, ◌&&◌, ◌||◌, List, [], ◌∷◌, ◌≡◌, refl, sym, ◌==◌, any, is_blank, Option,
  none, some, if◌then◌else◌, arith, Bool-cases, inl, inr, keep,
}
use myference.Prelude.Result.{Result, ok, err}
use myference.Router.{
  RouteError, no_eligible_provider, insufficient_budget, Request, Candidate, pinned_elsewhere,
  unsuitable, over_budget, scan, less, first, choose, select,
}
use myference.Router.Order.{IsSort}
use myference.Router.Ranking.{less-IsOrder}

-- The candidate fits the pin and the request's model, capabilities and health.
unfoldable pub suits : Request → Candidate → Bool
suits r c = not (pinned_elsewhere r c) && not (unsuitable r c)

-- It suits, and its cost is within the request's and the session's budget.
unfoldable pub is_eligible : Request → Candidate → Bool
unfolding suits
is_eligible r c = suits r c && not (over_budget r c)

-- `scan` keeps the eligible candidates in order, and notes whether one that suits was too dear.
scan_lem :
    (r : Request) (cs : List Candidate)
    → scan r cs ≡ (keep (is_eligible r) cs, any (λ c. suits r c && over_budget r c) cs)
unfolding scan is_eligible
scan_lem r [] = refl
scan_lem r (c ∷ cs) = ground (arith, scan_lem r cs)

module _ {A : Type 0} (p : A → Bool) where
  mem_of_mem-keep : {x : A} (xs : List A) → Mem x (keep p xs) → Mem x xs × (p x ≡ true)
  mem_of_mem-keep [] m = absurd (not-mem-nil m)
  mem_of_mem-keep {x} (y ∷ ys) m = elim (Bool-cases (p y)) [
    | inl passes ↦
        Or.elim (×_prop Mem-prop (Bool-set (p x) true)) (mem-cons.0 (rw (passes, keep) at m))
          (λ e. (rw e mem-cons_self, rw e passes))
          (λ later. let (there, good) = mem_of_mem-keep ys later in (mem-cons_of_mem y there, good))
    | inr fails ↦
        let (there, good) = mem_of_mem-keep ys (rw (fails, keep) at m) in
        (mem-cons_of_mem y there, good)
  ]

  mem-keep : {x : A} (xs : List A) → Mem x xs → p x ≡ true → Mem x (keep p xs)
  mem-keep [] m h = absurd (not-mem-nil m)
  mem-keep {x} (y ∷ ys) m h =
      Or.elim Mem-prop (mem-cons.0 m) (λ e. rw (sym e, h) mem-cons_self)
        (λ later. elim (Bool-cases (p y)) [
          | inl passes ↦ rw (passes, keep) (mem-cons_of_mem y (mem-keep ys later h))
          | inr fails ↦ rw (fails, keep) (mem-keep ys later h)
        ])

first-ok :
    {b : Candidate} (xs : List Candidate)
    → first xs ≡ ok b
    → (rest : List Candidate) × (xs ≡ b ∷ rest)
first-ok [] h = cc
first-ok (x ∷ xs) h = (xs, cc)

module _ (sort : (Candidate → Candidate → Bool) → List Candidate → List Candidate)
    (s : IsSort sort) where
  choose-ok :
      {b : Candidate} (xs : List Candidate) (blocked : Bool)
      → choose sort xs blocked ≡ ok b
      → first (sort less xs) ≡ ok b
  choose-ok [] true h = cc
  choose-ok [] false h = cc
  choose-ok (x ∷ xs) blocked h = h

  less_irreflexive : (a : Candidate) → less a a ≡ false
  less_irreflexive a = ground (arith, less-IsOrder.asymmetric a a)

  -- The head of a sorted list is in the list, and nothing of the list is less.
  sorted_head :
      {b : Candidate} (xs : List Candidate)
      → first (sort less xs) ≡ ok b
      → Mem b xs × ((c : Candidate) → Mem c xs → less c b ≡ false)
  sorted_head {b} xs h =
      let (rest, e) = first-ok (sort less xs) h in
      ((Perm.mem_iff (s.keeps less xs)).0 (rw e mem-cons_self), λ c m. not_less rest e c m)
    where
      not_less :
          (rest : List Candidate)
          → sort less xs ≡ b ∷ rest
          → (c : Candidate) → Mem c xs
          → less c b ≡ false
      not_less rest e c m =
          Or.elim (Bool-set (less c b) false)
            (mem-cons.0 (rw e at ((Perm.mem_iff (s.keeps less xs)).1 m)))
            (λ same. rw same (less_irreflexive b))
            (λ later. rel_of_Pairwise-cons (rw e at (s.sorts less xs less-IsOrder)) later)

  -- What `Select` returns is one of the candidates, is eligible, and no eligible candidate `c` is
  -- less: none is cheaper, or as cheap with a better rank.
  pub select_best :
      (r : Request) (cs : List Candidate) (c : Candidate) {best : Candidate}
      → select sort r cs ≡ ok best
      → Mem c cs
      → is_eligible r c ≡ true
      → Mem best cs × (is_eligible r best ≡ true) × (less c best ≡ false)
  unfolding select
  select_best r cs c {best} h m e =
      let (found, least) = sorted_head (keep (is_eligible r) cs) (choose-ok _ _ chosen) in
      let (there, good) = mem_of_mem-keep (is_eligible r) cs found in
      (there, good, least c (mem-keep (is_eligible r) cs m e))
    where
      chosen :
          choose sort (keep (is_eligible r) cs) (any (λ c. suits r c && over_budget r c) cs)
          ≡ ok best
      chosen = ground (arith, scan_lem r cs)

-- The error of a result, if it is one.
abbrev pub error_of : Result RouteError Candidate → Option RouteError
error_of (ok c) = none
error_of (err e) = some e

abbrev is_nil : List Candidate → Bool
is_nil [] = true
is_nil (_ ∷ _) = false

is_nil-keep : (p : Candidate → Bool) (cs : List Candidate) → is_nil (keep p cs) ≡ not (any p cs)
is_nil-keep p [] = refl
is_nil-keep p (c ∷ cs) = ground (arith, is_nil-keep p cs)

any-suits :
    (r : Request) (cs : List Candidate)
    → any (suits r) cs ≡ (any (is_eligible r) cs || any (λ c. suits r c && over_budget r c) cs)
unfolding is_eligible
any-suits r [] = refl
any-suits r (c ∷ cs) = ground (arith, any-suits r cs)

first_of_mem : {c : Candidate} (xs : List Candidate) → Mem c xs → error_of (first xs) ≡ none
first_of_mem [] m = absurd (not-mem-nil m)
first_of_mem (x ∷ xs) m = refl

module _ (sort : (Candidate → Candidate → Bool) → List Candidate → List Candidate)
    (s : IsSort sort) where
  error_of-choose :
      (xs : List Candidate) (blocked : Bool)
      → error_of (choose sort xs blocked) ≡ (
          if is_nil xs
          then (if blocked then some insufficient_budget else some no_eligible_provider)
          else none)
  error_of-choose [] true = refl
  error_of-choose [] false = refl
  error_of-choose (x ∷ xs) blocked =
      first_of_mem (sort less (x ∷ xs)) ((Perm.mem_iff (s.keeps less (x ∷ xs))).1 mem-cons_self)

  -- `Select` returns a candidate exactly if the request names a model and a spend and some
  -- candidate is eligible. Otherwise it reports a budget that is too low if the request is valid
  -- and some candidate suits it, and no provider if not. It never indexes an empty slice.
  pub select_error :
      (r : Request) (cs : List Candidate)
      → error_of (select sort r cs) ≡ (
          if is_blank r.model || r.maximum_spend == 0
          then some no_eligible_provider
          else if any (is_eligible r) cs
          then none
          else if any (suits r) cs
          then some insufficient_budget
          else some no_eligible_provider)
  unfolding select
  select_error r cs = ground (
    arith,
    scan_lem r cs,
    is_nil-keep (is_eligible r) cs,
    any-suits r cs,
    error_of-choose (keep (is_eligible r) cs) (any (λ c. suits r c && over_budget r c) cs),
  )

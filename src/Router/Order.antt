-- ===== src/Router/Order.antt =====
-- Comparisons that order, and what `sort.Slice` promises of them.
use Prim.Native.Nat.{ℕ, Ordering, compare}
use Prim.Native.String.{then}
use mathlib.Core.List.{List, Perm, Pairwise}
use mathlib.Core.Path.{◌≡◌}
use mathlib.Core.Bool.{Bool, false}
use native.Mathlib.Omega.{arith}

abbrev pub flip : Ordering → Ordering
flip Ordering.lt = Ordering.gt
flip Ordering.eq = Ordering.eq
flip Ordering.gt = Ordering.lt

-- A comparison by some order of keys.
pub record IsComparison {ℓ} {A : Type ℓ} (c : A → A → Ordering) : Type ℓ where
  pub flips : (a b : A) → c b a ≡ flip (c a b)
  pub eq_left : (a b d : A) → c a b ≡ Ordering.eq → c a d ≡ c b d
  pub lt_trans : (a b d : A) → c a b ≡ Ordering.lt → c b d ≡ Ordering.lt → c a d ≡ Ordering.lt

-- By the first key, then by the second.
module _ {ℓ} {A : Type ℓ} (c d : A → A → Ordering) where
  abbrev pub lex : A → A → Ordering
  lex a b = then (c a b) (d a b)

  pub lex-IsComparison : IsComparison c → IsComparison d → IsComparison lex
  lex-IsComparison p q = record {
    flips = λ a b. ground (arith, p.flips a b, q.flips a b);
    eq_left = λ x y z h. ground (arith, p.eq_left x y z, q.eq_left x y z);
    lt_trans = λ x y z h k. ground (
      arith,
      p.lt_trans x y z,
      q.lt_trans x y z,
      p.eq_left x y z,
      p.eq_left z y x,
      p.flips x y,
      p.flips x z,
      p.flips y z,
    );
  }

pub compare-IsComparison :
    {A : Type 0} (key : A → ℕ) → IsComparison (λ a b. compare (key a) (key b))
compare-IsComparison key = record {
  flips = λ a b. ground arith;
  eq_left = λ a b d h. ground arith;
  lt_trans = λ a b d h k. ground arith;
}

pub descending-IsComparison :
    {A : Type 0} (key : A → ℕ) → IsComparison (λ a b. compare (key b) (key a))
descending-IsComparison key = record {
  flips = λ a b. ground arith;
  eq_left = λ a b d h. ground arith;
  lt_trans = λ a b d h k. ground arith;
}

-- What a comparison function for `sort.Slice` must be: a strict weak order.
pub record IsOrder {ℓ} {A : Type ℓ} (less : A → A → Bool) : Type ℓ where
  pub asymmetric : (a b : A) → less a b ≡ Bool.true → less b a ≡ false
  pub not_less_trans : (a b d : A) → less b a ≡ false → less d b ≡ false → less d a ≡ false

-- What `sort.Slice` promises: the elements stay, and are in order if the comparison orders them.
pub record IsSort {ℓ} {A : Type ℓ} (sort : (A → A → Bool) → List A → List A) : Type ℓ where
  pub keeps : (less : A → A → Bool) (xs : List A) → Perm (sort less xs) xs
  pub sorts :
      (less : A → A → Bool) (xs : List A)
      → IsOrder less
      → Pairwise (λ a b. less b a ≡ false) (sort less xs)

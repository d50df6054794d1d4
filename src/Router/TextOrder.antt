-- ===== src/Router/TextOrder.antt =====
-- Texts are ordered by their bytes, as Go's `<` orders strings.
use Prim.Native.Nat.{Ordering}
use Prim.Native.String
use Prim.Native.String.{String}
use Prim.Native.String.compare
use mathlib.Core.Path.{◌≡◌}
use native.Mathlib.Omega.{arith}
use text.Mathlib.TextEquality.{path_by_compare}
use myference.Router.Order.{flip, IsComparison}

flips_text : (s t : String) → String.compare t s ≡ flip (String.compare s t)
flips_text String.[] String.[] = rw compare.nil-nil
flips_text String.[] (String.◌∷◌ d t) = rw (compare.nil-cons, compare.cons-nil)
flips_text (String.◌∷◌ c s) String.[] = rw (compare.nil-cons, compare.cons-nil)
flips_text (String.◌∷◌ c s) (String.◌∷◌ d t) =
    ground (arith, compare.cons-cons c d s t, compare.cons-cons d c t s, flips_text s t)

lt_trans_text :
    (s t u : String)
    → String.compare s t ≡ Ordering.lt
    → String.compare t u ≡ Ordering.lt
    → String.compare s u ≡ Ordering.lt
lt_trans_text s String.[] String.[] h k = cc
lt_trans_text s String.[] (String.◌∷◌ e u) h k = elim_nil s h
  where
    elim_nil :
        (s : String)
        → String.compare s String.[] ≡ Ordering.lt
        → String.compare s (String.◌∷◌ e u) ≡ Ordering.lt
    elim_nil String.[] p = cc
    elim_nil (String.◌∷◌ c s) p = cc (compare.cons-nil c s)
lt_trans_text s (String.◌∷◌ d t) String.[] h k = cc (compare.cons-nil d t)
lt_trans_text String.[] (String.◌∷◌ d t) (String.◌∷◌ e u) h k = rw compare.nil-cons
lt_trans_text (String.◌∷◌ c s) (String.◌∷◌ d t) (String.◌∷◌ e u) h k = ground (
  arith,
  compare.cons-cons c d s t,
  compare.cons-cons d e t u,
  compare.cons-cons c e s u,
  lt_trans_text s t u,
)

pub text-IsComparison :
    {A : Type 0} (key : A → String) → IsComparison (λ a b. String.compare (key a) (key b))
text-IsComparison key = record {
  flips = λ a b. flips_text (key a) (key b);
  eq_left = λ a b d h. rw (path_by_compare (key a) (key b) h);
  lt_trans = λ a b d. lt_trans_text (key a) (key b) (key d);
}

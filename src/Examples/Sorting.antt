-- ===== src/Examples/Sorting.antt =====
-- Insertion sort, a sort that does what `sort.Slice` promises.
use mathlib.Core.List.Perm
use mathlib.Core.List.{Perm, Pairwise, mem-cons, Pairwise-cons, not-mem-nil}
use mathlib.Core.Logic.Or
use mathlib.Core.Bool.{Bool-set}
use myference.Prelude.{Bool, false, List, [], ◌∷◌, ◌≡◌, inl, inr, Bool-cases, if◌then◌else◌}
use myference.Router.Order.{IsOrder, IsSort}

module _ {A : Type 0} (less : A → A → Bool) where
  unfoldable pub insert_sorted : A → List A → List A
  insert_sorted x [] = x ∷ []
  insert_sorted x (y ∷ ys) =
      let rest = insert_sorted x ys in if less y x then y ∷ rest else x ∷ y ∷ ys

  unfoldable pub insertion_sort : List A → List A
  unfolding insert_sorted
  insertion_sort [] = []
  insertion_sort (x ∷ xs) = insert_sorted x (insertion_sort xs)

  insert_sorted-Perm : (x : A) (ys : List A) → Perm (insert_sorted x ys) (x ∷ ys)
  unfolding insert_sorted
  insert_sorted-Perm x [] = Perm.refl _
  insert_sorted-Perm x (y ∷ ys) = elim (Bool-cases (less y x)) [
    | inl t ↦ rw t (Perm.trans (Perm.cons y (insert_sorted-Perm x ys)) (Perm.swap _ _ _))
    | inr t ↦ rw t (Perm.refl _)
  ]

  insertion_sort-Perm : (xs : List A) → Perm (insertion_sort xs) xs
  unfolding insertion_sort
  insertion_sort-Perm [] = Perm.refl _
  insertion_sort-Perm (x ∷ xs) =
      Perm.trans (insert_sorted-Perm x (insertion_sort xs)) (Perm.cons x (insertion_sort-Perm xs))

  module _ (o : IsOrder less) where
    insert_sorted-Pairwise :
        (x : A) (ys : List A)
        → Pairwise (λ a b. less b a ≡ false) ys
        → Pairwise (λ a b. less b a ≡ false) (insert_sorted x ys)
    unfolding insert_sorted
    insert_sorted-Pairwise x [] p = Pairwise-cons.1 (λ a m. absurd (not-mem-nil m), p)
    insert_sorted-Pairwise x (y ∷ ys) p =
        let (first_least, rest) = Pairwise-cons.0 p in
        elim (Bool-cases (less y x)) [
          | inr t ↦ rw t (
              Pairwise-cons.1 (
                λ a m.
                    Or.elim (Bool-set (less a x) false) (mem-cons.0 m) (λ same. rw same t)
                      (λ later. o.not_less_trans x y a t (first_least a later)),
                p,
              ))
          | inl t ↦ rw t (
              Pairwise-cons.1 (
                λ a m.
                    Or.elim (Bool-set (less a y) false)
                      (mem-cons.0 ((Perm.mem_iff (insert_sorted-Perm x ys)).0 m))
                      (λ same. rw same (o.asymmetric y x t)) (λ later. first_least a later),
                insert_sorted-Pairwise x ys rest,
              ))
        ]

    insertion_sort-Pairwise : (xs : List A) → Pairwise (λ a b. less b a ≡ false) (insertion_sort xs)
    unfolding insertion_sort
    insertion_sort-Pairwise [] = Pairwise.nil
    insertion_sort-Pairwise (x ∷ xs) =
        insert_sorted-Pairwise x (insertion_sort xs) (insertion_sort-Pairwise xs)

pub insertion_sort-IsSort :
    {A : Type 0} → IsSort (λ (less : A → A → Bool) xs. insertion_sort less xs)
insertion_sort-IsSort = record {
  keeps = λ less xs. insertion_sort-Perm less xs;
  sorts = λ less xs o. insertion_sort-Pairwise less o xs;
}

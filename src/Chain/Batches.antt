-- ===== src/Chain/Batches.antt =====
-- The batches of blocks that the indexer reads.
use myference.Prelude.{
  ℕ, zero, suc, ◌+◌, ◌-◌, ◌<◌, ◌≤◌, Option, none, some, List, [], ◌∷◌, ◌≡◌, inl, inr, refl, leb,
  ◌==◌, Bool-cases, Option-cases, arith,
}
use myference.Prelude.Words.{max_uint64, IsUint64}
use myference.Chain.{batch_end, index_batch_size, sync_loop}

-- A batch of at most 100 blocks from `next` on, up to `target`, that is full unless it ends there.
batch_end_bounds :
    (next target : ℕ)
    → IsUint64 target
    → next ≤ target
    → (next ≤ batch_end next target index_batch_size)
      × (batch_end next target index_batch_size ≤ target)
      × (batch_end next target index_batch_size < next + 100)
unfolding batch_end
batch_end_bounds next target w h = (ground arith, ground arith, ground arith)

-- The ranges go from `next` to `target` without a gap or an overlap, each of at most 100 blocks.
abbrev pub IsCover : ℕ → ℕ → List (ℕ × ℕ) → Type 0
IsCover next target [] = target < next
IsCover next target ((first, last) ∷ rest) =
    (first ≡ next)
    × (first ≤ last)
    × (last ≤ target)
    × (last < first + 100)
    × IsCover (last + 1) target rest

module _ {S E : Type 0} (index : ℕ → ℕ → S → S × Option E) where
  -- Indexing ranges in order, up to the first error.
  unfoldable pub index_ranges : List (ℕ × ℕ) → S → S × Option E
  index_ranges [] s = (s, none)
  index_ranges ((first, last) ∷ rest) s =
      let (s', e) = index first last s in
      elim e [ some bad ↦ (s', some bad) | none ↦ index_ranges rest s' ]

  -- From `next` on, the loop indexes the blocks up to `target` in ranges of at most 100 blocks,
  -- without a gap or an overlap, up to the first error; also when `target` is the last uint64, and
  -- with as many rounds as there are blocks.
  pub sync_loop_lem :
      (fuel next target : ℕ) (s : S)
      → IsUint64 target
      → target + 1 - next ≤ fuel
      → (ranges : List (ℕ × ℕ)) × IsCover next target ranges
        × (sync_loop index fuel next target s ≡ index_ranges ranges s)
  unfolding sync_loop index_ranges
  sync_loop_lem zero next target s w f = ([], omega arith, refl)
  sync_loop_lem (suc fuel) next target s w f = elim (Bool-cases (leb next target)) [
    | inr past ↦ ([], ground arith, rw (past, sync_loop) refl)
    | inl here ↦
        let last = batch_end next target index_batch_size in
        let (lo, hi, small) = batch_end_bounds next target w (ground arith) in
        let (ranges, cover, rest) =
          sync_loop_lem fuel (last + 1) target (index next last s).0 w (ground arith) in
        elim (Option-cases (index next last s).1) [
          | inr (bad, failed) ↦ (
            (next, last) ∷ ranges,
            (refl, lo, hi, small, cover),
            rw (here, failed, sync_loop, index_ranges) refl,
          )
          | inl fine ↦ elim (Bool-cases (last == max_uint64)) [
            | inl top ↦ (
              (next, last) ∷ [],
              (refl, lo, hi, small, ground arith),
              rw (here, fine, top, sync_loop, index_ranges) refl,
            )
            | inr more ↦ (
              (next, last) ∷ ranges,
              (refl, lo, hi, small, cover),
              rw (here, fine, more, sync_loop, index_ranges) rest,
            )
          ]
        ]
  ]

-- ===== src/Store/Requests/Outbox.antt =====
-- The outbox is claimed in order, and each event once.
use myference.Prelude.{
  ℕ, zero, suc, not, Option, none, some, List, [], ◌∷◌, ◌++◌, ◌≤◌, length, Option-cases, inl, inr,
  ◌≡◌, refl, keep, arith,
}
use myference.Store.Tables.{OutboxRow}
use myference.Store.Requests.{claim_first}

-- The rows that were not published, in order.
abbrev pub pending : List OutboxRow → List OutboxRow
pending = keep (λ row. not row.published)

-- `n` claims in a row: what they return, and the outbox after them.
unfoldable pub claims : ℕ → List OutboxRow → List OutboxRow × List OutboxRow
claims zero rows = ([], rows)
claims (suc n) rows = elim (claim_first rows) [
  | none ↦ ([], rows)
  | some (row, rest) ↦ let (more, last) = claims n rest in (row ∷ more, last)
]

-- A claim takes the first pending row and leaves the others.
abbrev Took : List OutboxRow → Option (OutboxRow × List OutboxRow) → Type 0
Took rows none = pending rows ≡ []
Took rows (some (row, rest)) = pending rows ≡ row ∷ pending rest

claim_first-Took : (rows : List OutboxRow) → Took rows (claim_first rows)
unfolding claim_first
claim_first-Took [] = refl
claim_first-Took (row ∷ rows) = ground (arith, claim_first-Took rows)

-- What successive claims return, followed by what they leave pending, is what was pending, in
-- order: each event is claimed once.
pub claims_in_order :
    (n : ℕ) (rows : List OutboxRow)
    → ((claims n rows).0 ++ pending (claims n rows).1 ≡ pending rows)
unfolding claims
claims_in_order zero rows = refl
claims_in_order (suc n) rows = elim (Option-cases (claim_first rows)) [
  | inl nothing ↦ rw (nothing, claims) refl
  | inr (taken, found) ↦
      let next = claims_in_order n taken.1 in ground (arith, claim_first-Took rows, next)
]

nil_of_empty : (rows : List OutboxRow) → length rows ≤ 0 → rows ≡ []
nil_of_empty [] h = refl
nil_of_empty (row ∷ rows) h = absurd (omega arith)

-- As many claims as there are pending events leave nothing pending.
pub claims_drain :
    (n : ℕ) (rows : List OutboxRow) → length (pending rows) ≤ n → pending (claims n rows).1 ≡ []
unfolding claims
claims_drain zero rows h = nil_of_empty (pending rows) h
claims_drain (suc n) rows h = elim (Option-cases (claim_first rows)) [
  | inl nothing ↦ ground (arith, claim_first-Took rows)
  | inr (taken, found) ↦
      let fewer : length (pending taken.1) ≤ n = ground (arith, claim_first-Took rows) in
      let next = claims_drain n taken.1 fewer in ground (arith, next)
]

-- ===== src/Chain/Search.antt =====
-- The search for the first block at which the contract has code.
use myference.Prelude.{
  ℕ, zero, suc, ◌+◌, ◌-◌, ◌/◌, ◌≤◌, true, some, ◌≡◌, inl, inr, refl, ltb, leb, Bool-cases, arith,
  if◌then◌else◌,
}
use myference.Prelude.Result.{ok}
use myference.Chain.{CodeReader, search_code, first_code_block}

-- The node answers at every block, and the contract has code from block `b` on.
abbrev pub DeployedAt : CodeReader → ℕ → Type 0
DeployedAt code b = (n : ℕ) → code n ≡ some (leb b n)

search_finds :
    (code : CodeReader) (b fuel low high : ℕ)
    → DeployedAt code b
    → low ≤ b
    → b ≤ high
    → high - low ≤ fuel
    → search_code code fuel low high ≡ ok b
unfolding search_code
search_finds code b zero low high d lo hi f = ground arith
search_finds code b (suc fuel) low high d lo hi f =
    let mid = low + (high - low) / 2 in
    elim (Bool-cases (ltb low high)) [
      | inr done ↦ rw (done, search_code) (ground arith)
      | inl more ↦ elim (Bool-cases (leb b mid)) [
        | inl has ↦
            rw (more, d mid, has, search_code)
              (search_finds code b fuel low mid d lo (ground arith) (ground arith))
        | inr lacks ↦
            rw (more, d mid, lacks, search_code)
              (search_finds code b fuel (mid + 1) high d (ground arith) hi (ground arith))
      ]
    ]

-- If the contract has code from block `b` on, which the head has reached, the search finds the first
-- block with code that is not before the configured one.
pub first_code_block_lem :
    (code : CodeReader) (b configured head : ℕ)
    → DeployedAt code b
    → b ≤ head
    → first_code_block code configured head ≡ ok (if leb b configured then configured else b)
unfolding first_code_block
first_code_block_lem code b configured head d reached = elim (Bool-cases (leb b configured)) [
  | inl has ↦ rw (d configured, has, first_code_block) refl
  | inr lacks ↦
      let found =
        search_finds code b (head - configured) configured head d (ground arith) reached
          (omega arith) in
      let there : leb b head ≡ true = ground arith in
      rw (d configured, lacks, d head, there, first_code_block) found
]

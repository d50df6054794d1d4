-- ===== src/Chain.antt =====
-- server/internal/chain/indexer.go: which blocks the indexer reads.
pub mod Batches
pub mod Search
pub mod Ledger
pub mod Updates
pub mod Indexing
pub mod Sync
pub mod Queue
use myference.Prelude.{
  ℕ, zero, suc, ◌+◌, ◌-◌, ◌/◌, Bool, true, false, ◌||◌, Option, none, some, List, [], ◌∷◌, ltb, leb,
  ◌==◌, if◌then◌else◌,
}
use myference.Prelude.Words.{u64, u64_mod, max_uint64}
use myference.Prelude.Result.{Result, ok, err}

-- a - b of two uint64
abbrev pub sub64 : ℕ → ℕ → ℕ
sub64 a b = u64 (a + u64_mod - b)

abbrev pub index_batch_size : ℕ
index_batch_size = 100

-- `batchEnd`
unfoldable pub batch_end : ℕ → ℕ → ℕ → ℕ
batch_end next target size =
    if size == 0 || ltb (sub64 target next) (sub64 size 1)
    then target
    else sub64 (u64 (next + size)) 1

-- The loop of `Sync`; `index` is `indexRange` on a state, with its error. Each round indexes at least
-- one block, so as many rounds as there are blocks are enough.
module _ {S E : Type 0} (index : ℕ → ℕ → S → S × Option E) where
  unfoldable pub sync_loop : ℕ → ℕ → ℕ → S → S × Option E
  sync_loop zero next target s = (s, none)
  sync_loop (suc fuel) next target s = elim (leb next target) [
    | false ↦ (s, none)
    | true ↦
        let last = batch_end next target index_batch_size in
        let (s', e) = index next last s in
        elim e [
          | some bad ↦ (s', some bad)
          | none ↦ elim (last == max_uint64) [
            | true ↦ (s', none)
            | false ↦ sync_loop fuel (last + 1) target s'
          ]
        ]
  ]

pub data SearchError : Type 0 where
  read_failed code_unavailable : SearchError

-- What the node says of the contract's code at a block: nothing, if it cannot be asked, or whether
-- there is any.
abbrev pub CodeReader : Type 0
CodeReader = ℕ → Option Bool

-- The loop of `firstCodeBlock`, which halves what is left; `fuel` bounds its rounds.
unfoldable pub search_code : CodeReader → ℕ → ℕ → ℕ → Result SearchError ℕ
search_code code zero low high = ok low
search_code code (suc fuel) low high = elim (ltb low high) [
  | false ↦ ok low
  | true ↦
      let mid = low + (high - low) / 2 in
      elim (code mid) [
        | none ↦ err read_failed
        | some false ↦ search_code code fuel (mid + 1) high
        | some true ↦ search_code code fuel low mid
      ]
]

-- `firstCodeBlock`
unfoldable pub first_code_block : CodeReader → ℕ → ℕ → Result SearchError ℕ
unfolding search_code
first_code_block code configured head = elim (code configured) [
  | none ↦ err read_failed
  | some true ↦ ok configured
  | some false ↦ elim (code head) [
    | none ↦ err read_failed
    | some false ↦ err code_unavailable
    | some true ↦ search_code code (head - configured) configured head
  ]
]

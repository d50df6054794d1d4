-- ===== src/Examples/Blocks.antt =====
-- The indexer's search and its batches at concrete inputs.
use myference.Prelude.{some, ◌≡◌, refl, leb, arith}
use myference.Prelude.Result.{ok}
use myference.Chain.{CodeReader, first_code_block}
use myference.Chain.Search.{first_code_block_lem}

-- A chain on which the contract has code from block 77 on.
abbrev code_from_77 : CodeReader
code_from_77 n = some (leb 77 n)

first_code_block_lem_example : first_code_block code_from_77 5 1000 ≡ ok 77
first_code_block_lem_example = first_code_block_lem code_from_77 77 5 1000 (λ n. refl) (omega arith)

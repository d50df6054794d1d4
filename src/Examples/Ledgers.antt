-- ===== src/Examples/Ledgers.antt =====
-- The indexer's ledger at concrete inputs.
use myference.Prelude.{ℕ, ◌+◌, true, false, none, some, List, [], ◌∷◌, ◌≡◌, refl, arith}
use mathlib.Core.Option
use myference.Prelude.Result.{Result, ok, err}
use myference.Protocol.Chunks.{set_key}
use myference.Store.Tables.{SessionRow, ReservationRow, Db}
use myference.Store.Inference.{locked}
use myference.Store.Inference.Solvency.{IsSolvent}
use myference.Chain.{sync_loop, batch_end}
use myference.Chain.Batches.{IsCover}
use myference.Chain.Ledger.{
  Log, LedgerError, SettlementRow, deposited, receipt_settled, empty_ledger,
}
use myference.Chain.Updates.{settlement_row}
use myference.Chain.Indexing.{
  Index, Node, held, apply_event, apply_settlement, index_log, index_logs, index_range,
}
use myference.Chain.Sync.{rewind, revert_settlements, sync}
use myference.Chain.Indexing.Replay.{view, view_of, replay}
use myference.Chain.Indexing.Refinement.{index_logs-replay}
use myference.Chain.Indexing.Reorganisation.{fetched, empty_view, sync_rebuilds}
use myference.Chain.Indexing.Settlements.{balance_of, settlement-IsSolvent}
use myference.Chain.Indexing.Duplicates.{index_logs_again}
use myference.Chain.Indexing.Released.{IsReleased, index_logs-IsReleased}

abbrev paid_session : SessionRow
paid_session = record { account_id = "a1"; is_open = true; confirmed_balance = 100 }

abbrev one_reservation : ReservationRow
one_reservation = record { request_id = "r1"; session_id = "s1"; amount = 15; released = false }

abbrev store_db : Db
store_db = record {
  sessions = λ s. set_key (λ k. none) "s1" (some paid_session) s;
  routes = λ m o. none;
  requests = λ r. none;
  reservations = one_reservation ∷ [];
  proposals = λ r. none;
  outbox = [];
}

abbrev fresh_index : Index
fresh_index = record {
  logs = [];
  blocks = λ n. none;
  cursor = none;
  ledger = empty_ledger;
  db = store_db;
  queue = [];
  wallets = λ w. none;
  start_block = 5;
}

abbrev deposit_log : Log
deposit_log = record {
  transaction_hash = "t1";
  index = 0;
  block_number = 6;
  event = some (deposited "0xc" 40);
}

abbrev settle_log : Log
settle_log = record {
  transaction_hash = "t2";
  index = 1;
  block_number = 7;
  event = some (receipt_settled "r1" "s1" "0xp" 12 3);
}

-- The deposit is given twice.
abbrev some_logs : List Log
some_logs = deposit_log ∷ settle_log ∷ deposit_log ∷ []

abbrev or_fresh : Result LedgerError Index → Index
or_fresh (ok s) = s
or_fresh (err e) = fresh_index

abbrev indexed : Index
indexed = or_fresh (index_logs "0xf" some_logs fresh_index)

indexes : index_logs "0xf" some_logs fresh_index ≡ ok indexed
unfolding index_logs index_log apply_event
indexes = refl

index_logs-replay_example :
    view_of (index_logs "0xf" some_logs fresh_index)
    ≡ replay "0xf" (held store_db) some_logs empty_view
index_logs-replay_example =
    index_logs-replay "0xf" (held store_db) some_logs fresh_index (λ id. refl)

index_logs_again_example : index_logs "0xf" some_logs indexed ≡ ok indexed
index_logs_again_example = index_logs_again "0xf" some_logs fresh_index indexed indexes

index_logs-IsReleased_example : IsReleased indexed
index_logs-IsReleased_example =
    index_logs-IsReleased "0xf" some_logs fresh_index indexed (λ id h. ground arith) indexes

abbrev settled_row : SettlementRow
settled_row = settlement_row settle_log "r1" "s1" "0xp" 12 3

abbrev settled_index : Index
settled_index = or_fresh (apply_settlement "0xf" settled_row fresh_index)

settles : apply_settlement "0xf" settled_row fresh_index ≡ ok settled_index
settles = refl

store_db-IsSolvent : IsSolvent store_db
unfolding locked
store_db-IsSolvent s row h = ground arith

settlement-IsSolvent_example :
    IsSolvent settled_index.db
    × (Option.map (λ b. b + 15) (balance_of settled_index.db "s1") ≡ some 100)
settlement-IsSolvent_example =
    settlement-IsSolvent "0xf" settled_row fresh_index settled_index one_reservation
      store_db-IsSolvent refl refl refl settles

-- A node on which block 9 is another than the one that was read, with one log.
abbrev moved_node : Node
moved_node = record {
  latest = some 12;
  header = λ n. some (record { block_hash = "new"; parent_hash = "p" });
  code = λ n. some true;
  filter_logs = λ a b. some (deposit_log ∷ []);
}

abbrev read_index : Index
read_index = record indexed {
  cursor = some (record { next_block = 10; last_block = some (9, "old") });
}

abbrev rebuilt : Index
rebuilt = (sync "0xf" moved_node 2 read_index).0

rebuilds : sync "0xf" moved_node 2 read_index ≡ (rebuilt, none)
unfolding sync sync_loop index_range batch_end rewind index_logs index_log apply_event
    revert_settlements
rebuilds = refl

sync_rebuilds_example :
    (ranges : List (ℕ × ℕ)) × IsCover 5 10 ranges
    × (replay "0xf" (held read_index.db) (fetched moved_node ranges) empty_view ≡ ok (view rebuilt))
unfolding index_logs index_log apply_event
sync_rebuilds_example =
    sync_rebuilds "0xf" moved_node 2 12 9 10 "old" read_index read_index rebuilt refl (omega arith)
      (omega arith) refl refl refl rebuilds

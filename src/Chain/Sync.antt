-- ===== src/Chain/Sync.antt =====
-- server/internal/chain/indexer.go: the rewind after a reorganisation, and a run of `Sync`.
use myference.Prelude.{
  ℕ, ◌+◌, ◌-◌, String, Bool, false, ◌&&◌, Option, none, some, List, [], ◌∷◌, str_eq, map, ltb,
  if◌then◌else◌,
}
use myference.Prelude.Result.{Result, ok, err}
use myference.Store.Tables.{Status, ReservationRow}
use myference.Chain.Ledger.{SettlementRow, LedgerError, unreadable, empty_ledger}
use myference.Chain.{SearchError, first_code_block, sync_loop}
use myference.Chain.Indexing.{
  update_queue, CursorRow, BlockRow, Index, is_settled_status, transition_settlement_request,
  is_request, queue_reverted, Node, index_range,
}

-- The round of `rewind` for one settlement.
abbrev pub reopen : String → ReservationRow → ReservationRow
reopen id row =
    if is_request id row && ltb 0 row.amount then record row { released = false } else row

abbrev pub revert_settlement : String → Index → Index
revert_settlement id s = record s {
  db =
      transition_settlement_request id is_settled_status Status.settled Status.submitted
        (record s.db { reservations = map (reopen id) s.db.reservations });
  queue = update_queue id queue_reverted s.queue;
}

unfoldable pub revert_settlements : List SettlementRow → Index → Index
revert_settlements [] s = s
revert_settlements (row ∷ rows) s = revert_settlements rows (revert_settlement row.request_id s)

-- `rewind`
unfoldable pub rewind : Index → Index
unfolding revert_settlements
rewind s = record (revert_settlements s.ledger.settlements s) {
  ledger = empty_ledger;
  logs = [];
  blocks = λ n. none;
  cursor = none;
}

abbrev pub maximum_initial_history : ℕ
maximum_initial_history = 10000

-- `cursor`: the next block and the last one.
abbrev pub cursor_of : ℕ → Option CursorRow → ℕ × Option (ℕ × String)
cursor_of start none = (start, none)
cursor_of start (some row) = (row.next_block, row.last_block)

-- Whether the node still has the block of the cursor.
abbrev pub is_canonical : Option BlockRow → String → Bool
is_canonical none hash = false
is_canonical (some row) hash = str_eq row.block_hash hash

-- The start that `Sync` takes: where the contract's code begins, if the history is long.
abbrev pub found_start :
    Option (ℕ × String) → ℕ → Index → Result SearchError ℕ → Result LedgerError (ℕ × Index)
found_start last configured s (err e) = err unreadable
found_start none configured s (ok next) = ok (next, record s { start_block = next })
found_start (some last) configured s (ok next) =
    ok (next, if ltb configured next then record s { start_block = next } else s)

-- The rewind of `Sync`, if the last block is no longer the node's.
abbrev pub follow : Node → Option (ℕ × String) → ℕ × Index → ℕ × Index
follow node none (next, s) = (next, s)
follow node (some (number, hash)) (next, s) =
    if is_canonical (node.header number) hash then (next, s) else (s.start_block, rewind s)

abbrev pub start_sync : Node → ℕ → Index → Result LedgerError (ℕ × Index)
start_sync node target s =
    let (next, last) = cursor_of s.start_block s.cursor in
    if ltb next target && ltb maximum_initial_history (target - next)
    then found_start last next s (first_code_block node.code next target)
    else ok (next, s)

module _ (fee_recipient : String) (node : Node) where
  abbrev pub run_sync : ℕ → Index → Result LedgerError (ℕ × Index) → Index × Option LedgerError
  run_sync target s (err e) = (s, some e)
  run_sync target s (ok start) =
      let (next, s') = follow node (cursor_of s.start_block s.cursor).1 start in
      sync_loop (index_range fee_recipient node) (target + 1) next target s'

  abbrev pub sync_from : Option ℕ → ℕ → Index → Index × Option LedgerError
  sync_from none confirmations s = (s, some unreadable)
  sync_from (some head) confirmations s =
      if ltb head confirmations
      then (s, none)
      else run_sync (head - confirmations) s (start_sync node (head - confirmations) s)

  -- `Sync`
  unfoldable pub sync : ℕ → Index → Index × Option LedgerError
  sync confirmations s = sync_from node.latest confirmations s

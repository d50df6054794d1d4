-- ===== src/Chain/Indexing.antt =====
-- server/internal/chain/indexer.go: the indexer's tables, what it makes of a log, of a range of blocks
-- and of a reorganisation. What it reads of the node is a parameter.
pub mod Replay
pub mod Refinement
pub mod Reorganisation
pub mod Settlements
pub mod Duplicates
pub mod Released
use myference.Prelude.{
  ℕ, suc, ◌+◌, ◌-◌, String, Bool, true, false, not, ◌&&◌, ◌||◌, Option, none, some, List, [], ◌∷◌,
  str_eq, any, find?, map, ltb, leb, ◌==◌, if◌then◌else◌,
}
use myference.Prelude.Int.{ℤ, pos, neg, ◌+ℤ◌}
use myference.Prelude.Result.{Result, ok, err, ◌>>=◌}
use myference.Protocol.Receipt.{Receipt}
use myference.Protocol.Chunks.{set_key}
use myference.Store.Tables.{Status, SessionRow, RequestRow, ReservationRow, Db, set_state, emit}
use myference.Store.Inference.{release}
use myference.Chain.Ledger.{
  AccountRow, OfferRow, ChainSessionRow, SettlementRow, SlashRow, ChainEvent, deposited,
  withdrawal_requested, claimed, bond_deposited, provider_signer_set, bond_exit_requested,
  bond_exit_finalized, offer_published, session_opened, session_close_requested, session_closed,
  receipt_settled, provider_slashed, other_event, Log, LedgerError, undecodable_log,
  reservation_mismatch, no_session, constraint, unreadable, Ledger, empty_ledger,
}
use myference.Chain.Updates.{
  or_new, change, upsert_account, update_account, update_session, add_balance, add_claimable,
  is_settled, same_slash, settle_ledger, close_ledger, slash_ledger, open_ledger, publish_offer,
  set_signer, withdraw_balance, set_bond, set_bond_exit, exit_bond, set_close, settlement_row,
  slash_row, session_row,
}
use myference.Prelude.Words.{u64}
use myference.Chain.{CodeReader, SearchError, first_code_block, sync_loop}

-- `settlement_queue.state`
pub data QueueState : Type 0 where
  cosigned broadcasting settled failed : QueueState

-- A row of the queue, with the receipt and its two signatures, and the transaction that settles it: its
-- hash and its bytes. `updated_at` is left out.
pub record QueueRow : Type 0 where
  pub request_id : String
  pub receipt : Receipt
  pub provider_signature : List ℕ
  pub settlement_signature : List ℕ
  pub state : QueueState
  pub transaction : Option (String × List ℕ)

abbrev pub is_queued : String → QueueRow → Bool
is_queued id row = str_eq row.request_id id

-- UPDATE settlement_queue SET … WHERE request_id=…
abbrev pub update_queue : String → (QueueRow → QueueRow) → List QueueRow → List QueueRow
update_queue id f [] = []
update_queue id f (row ∷ rows) = (if is_queued id row then f row else row) ∷ update_queue id f rows

pub record CursorRow : Type 0 where
  pub next_block : ℕ
  pub last_block : Option (ℕ × String)

pub record BlockRow : Type 0 where
  pub block_hash : String
  pub parent_hash : String

-- The tables of the indexer, with those of the store that it writes. `wallets` gives the account whose
-- wallet is an address, in any case; `start_block` is the indexer's own.
pub record Index : Type 0 where
  pub logs : List Log
  pub blocks : ℕ → Option BlockRow
  pub cursor : Option CursorRow
  pub ledger : Ledger
  pub db : Db
  pub queue : List QueueRow
  pub wallets : String → Option String
  pub start_block : ℕ

abbrev pub on_ledger : (Ledger → Ledger) → Index → Index
on_ledger f s = record s { ledger = f s.ledger }

abbrev pub is_submitted : Status → Bool
is_submitted Status.submitted = true
is_submitted state = false

abbrev pub is_settled_status : Status → Bool
is_settled_status Status.settled = true
is_settled_status state = false

-- `transitionSettlementRequest`, for the row of the request; `from` passes the first test.
abbrev pub move_row : String → (Status → Bool) → Status → Status → Option RequestRow → Db → Db
move_row id test from to none db = db
move_row id test from to (some row) db =
    if test row.state then emit id from to (set_state id row to db) else db

abbrev pub transition_settlement_request : String → (Status → Bool) → Status → Status → Db → Db
transition_settlement_request id test from to db = move_row id test from to (db.requests id) db

-- UPDATE sessions SET … WHERE id=…
abbrev pub update_local : String → (SessionRow → SessionRow) → Db → Db
update_local id f db = record db { sessions = set_key db.sessions id (change f (db.sessions id)) }

-- INSERT INTO sessions … SELECT … ON CONFLICT DO UPDATE
abbrev pub open_local : String → Option String → ℕ → Db → Db
open_local id none allowance db = db
open_local id (some account) allowance db = record db {
  sessions =
      set_key db.sessions id
        (some (record { account_id = account; is_open = true; confirmed_balance = allowance }));
}

abbrev pub is_request : String → ReservationRow → Bool
is_request id row = str_eq row.request_id id

-- What the store holds for a request, if it has reserved anything for it.
abbrev pub held_amount : Option ReservationRow → Option ℕ
held_amount none = none
held_amount (some row) = some row.amount

abbrev pub held : Db → String → Option ℕ
held db id = held_amount (find? (is_request id) db.reservations)

abbrev pub mismatched : Option ℕ → ℕ → Bool
mismatched none charge = false
mismatched (some amount) charge = not (amount == charge)

abbrev pub settled_state : QueueState → QueueState
settled_state QueueState.broadcasting = QueueState.settled
settled_state q = q

abbrev pub reverted_state : QueueState → QueueState
reverted_state QueueState.settled = QueueState.broadcasting
reverted_state q = q

abbrev pub queue_settled : QueueRow → QueueRow
queue_settled row = record row { state = settled_state row.state }

abbrev pub queue_reverted : QueueRow → QueueRow
queue_reverted row = record row { state = reverted_state row.state }

-- UPDATE sessions SET confirmed_balance_wei=GREATEST(0,confirmed_balance_wei-…-…)
abbrev pub charge_session : SettlementRow → SessionRow → SessionRow
charge_session row r = record r {
  confirmed_balance = r.confirmed_balance - row.provider_amount - row.fee_amount;
}

-- The store's tables after a settlement, but for the state of the request.
abbrev pub charge_local : SettlementRow → Db → Db
charge_local row db =
    let charged = update_local row.session_id (charge_session row) db in
    record charged { reservations = release row.request_id charged.reservations }

abbrev pub settle_local : SettlementRow → Db → Db
settle_local row db =
    transition_settlement_request row.request_id is_submitted Status.submitted Status.settled
      (charge_local row db)

abbrev pub write_settlement : String → SettlementRow → Index → Index
write_settlement fee_recipient row s = record s {
  ledger = settle_ledger fee_recipient row s.ledger;
  db = settle_local row s.db;
  queue = update_queue row.request_id queue_settled s.queue;
}

-- The branch of "ReceiptSettled".
abbrev pub apply_settlement : String → SettlementRow → Index → Result LedgerError Index
apply_settlement fee_recipient row s =
    if mismatched (held s.db row.request_id) (row.provider_amount + row.fee_amount)
    then err reservation_mismatch
    else if any (is_settled row.request_id) s.ledger.settlements
    then ok s
    else ok (write_settlement fee_recipient row s)

abbrev pub apply_close : String → ℕ → Option ChainSessionRow → Index → Result LedgerError Index
apply_close id returned none s = err no_session
apply_close id returned (some row) s = ok (record s {
  ledger = close_ledger id returned row s.ledger;
  db = update_local id (λ r. record r { is_open = false; confirmed_balance = 0 }) s.db;
})

-- What the indexer asks a node: the number of the latest block, the headers, the code, and the logs of
-- the contract in a range of blocks. A question that fails is answered by nothing.
pub record Node : Type 0 where
  pub latest : Option ℕ
  pub header : ℕ → Option BlockRow
  pub code : CodeReader
  pub filter_logs : ℕ → ℕ → Option (List Log)

abbrev pub write_block : ℕ → BlockRow → Index → Index
write_block number row s = record s { blocks = λ n. if number == n then some row else s.blocks n }

abbrev pub write_cursor : ℕ → String → Index → Index
write_cursor number hash s = record s {
  cursor = some (record { next_block = u64 (number + 1); last_block = some (number, hash) });
}

-- The transaction is rolled back by an error.
abbrev pub commit_range : ℕ → String → Index → Result LedgerError Index → Index × Option LedgerError
commit_range number hash s (err e) = (s, some e)
commit_range number hash s (ok s') = (write_cursor number hash s', none)

-- The primary key of the logs.
abbrev pub same_log : Log → Log → Bool
same_log log row = str_eq row.transaction_hash log.transaction_hash && row.index == log.index

module _ (fee_recipient : String) where
  -- The cases of `applyLog`.
  unfoldable pub apply_event : Log → ChainEvent → Index → Result LedgerError Index
  apply_event log (deposited customer amount) s =
      ok (on_ledger (upsert_account customer (add_balance (pos amount))) s)
  apply_event log (withdrawal_requested account amount) s =
      ok (on_ledger (update_account account (withdraw_balance amount)) s)
  apply_event log (claimed account amount) s =
      ok (on_ledger (update_account account (add_claimable (neg amount))) s)
  apply_event log (bond_deposited provider total) s =
      ok (on_ledger (upsert_account provider (set_bond total)) s)
  apply_event log (provider_signer_set provider signer allowed) s =
      ok (on_ledger (set_signer provider signer allowed) s)
  apply_event log (bond_exit_requested provider available_at) s =
      ok (on_ledger (update_account provider (set_bond_exit available_at)) s)
  apply_event log (bond_exit_finalized provider amount) s =
      ok (on_ledger (update_account provider (exit_bond amount)) s)
  apply_event log (offer_published provider offer version row) s =
      ok (on_ledger (publish_offer provider offer version row) s)
  apply_event log (session_opened session customer allowance expires_at) s = ok (record s {
    ledger = open_ledger session (session_row customer allowance expires_at) s.ledger;
    db = open_local session (s.wallets customer) allowance s.db;
  })
  apply_event log (session_close_requested session available_at) s = ok (record s {
    ledger = update_session session (set_close available_at) s.ledger;
    db = update_local session (λ r. record r { is_open = false }) s.db;
  })
  apply_event log (session_closed session returned) s =
      apply_close session returned (s.ledger.sessions session) s
  apply_event log (receipt_settled request session provider amount fee) s =
      apply_settlement fee_recipient (settlement_row log request session provider amount fee) s
  apply_event log (provider_slashed request provider amount) s =
      if amount == 0
      then err constraint
      else ok (on_ledger (slash_ledger fee_recipient (slash_row log request provider amount)) s)
  apply_event log other_event s = ok s

  -- `applyLog`
  abbrev pub apply_log : Log → Option ChainEvent → Index → Result LedgerError Index
  apply_log log none s = err undecodable_log
  apply_log log (some event) s = apply_event log event s

  -- `insertLog`, and the round of `indexRange` for one log.
  unfoldable pub index_log : Log → Index → Result LedgerError Index
  unfolding apply_event
  index_log log s =
      if any (same_log log) s.logs
      then ok s
      else apply_log log log.event (record s { logs = log ∷ s.logs })

  -- The loop of `indexRange`.
  unfoldable pub index_logs : List Log → Index → Result LedgerError Index
  unfolding index_log
  index_logs [] s = ok s
  index_logs (log ∷ rest) s = index_log log s >>= λ next. index_logs rest next

  abbrev pub index_block :
      ℕ → Index → Option BlockRow → Option (List Log) → Index × Option LedgerError
  index_block number s none logs = (s, some unreadable)
  index_block number s (some row) none = (s, some unreadable)
  index_block number s (some row) (some logs) =
      commit_range number row.block_hash s (index_logs logs (write_block number row s))

  -- `indexRange`
  unfoldable pub index_range : Node → ℕ → ℕ → Index → Index × Option LedgerError
  unfolding index_logs
  index_range node from to s = index_block to s (node.header to) (node.filter_logs from to)

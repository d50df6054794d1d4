-- ===== src/Examples/Queues.antt =====
-- The settlement queue at concrete inputs.
use myference.Prelude.{String, true, false, Option, none, some, List, [], ◌∷◌, ◌≡◌, refl, map}
use myference.Protocol.Chunks.{set_key}
use myference.Store.Tables.{completed, RequestRow, SessionRow, ReservationRow, Db}
use myference.Chain.Ledger.{Log, receipt_settled, empty_ledger}
use myference.Chain.Indexing.{
  Index, QueueRow, QueueState, broadcasting, settled, apply_event, index_log, index_logs,
}
use myference.Chain.Sync.{rewind, revert_settlements}
use myference.Chain.Queue.{
  SignedReceipt, Client, hash_hex, hex_digits, enqueue, enqueue_as, settle_batch, submit_all,
}
use myference.Chain.Queue.Agreement.{IsAgreed}
use myference.Chain.Queue.Calls.{
  QueueCall, add_receipt, send_batch, observe, reorganise, perform_queue_call, perform_queue_calls,
  perform-IsAgreed,
}

abbrev request : String
request = "0x0000000000000000000000000000000000000000000000000000000000000007"

abbrev request_row : RequestRow
request_row = record {
  session_id = "s1";
  state = completed;
  machine_id = "m1";
  offer_id = "o1";
  price_version = 1;
  maximum_spend = 15;
  maximum_input_tokens = 2;
  maximum_output_tokens = 1;
  maximum_compute_milliseconds = 1500;
  offer_hash = "0xaa";
  model_hash = "0xbb";
  capability_hash = "0xcc";
}

abbrev session : SessionRow
session = record { account_id = "a1"; is_open = true; confirmed_balance = 100 }

abbrev reservation : ReservationRow
reservation = record { request_id = request; session_id = "s1"; amount = 11; released = false }

abbrev store : Db
store = record {
  sessions = λ s. set_key (λ k. none) "s1" (some session) s;
  routes = λ m o. none;
  requests = λ r. set_key (λ k. none) request (some request_row) r;
  reservations = reservation ∷ [];
  proposals = λ r. none;
  outbox = [];
}

abbrev start : Index
start = record {
  logs = [];
  blocks = λ n. none;
  cursor = none;
  ledger = empty_ledger;
  db = store;
  queue = [];
  wallets = λ w. none;
  start_block = 5;
}

abbrev signed_receipt : SignedReceipt
signed_receipt = record {
  receipt = record {
    request_id = 7;
    session_id = 1;
    customer = 8;
    provider = 9;
    settlement_signer = 10;
    offer_id = 170;
    price_version = 1;
    model_hash = 187;
    capability_hash = 204;
    input_tokens = 1;
    output_tokens = 1;
    compute_milliseconds = 1000;
    maximum_charge = 15;
    total_charge = 11;
    fee_basis_points = 500;
    fee_version = 1;
    status = 1;
    completed_at = 9;
    input_hash = 1;
    output_hash = 2;
    nonce = 5;
  };
  provider_signature = 1 ∷ [];
  settlement_signature = 2 ∷ [];
}

abbrev first : List QueueRow → Option QueueRow
first [] = none
first (row ∷ rows) = some row

-- The broadcast fails; the transaction is on the chain all the same.
abbrev client : Client
client = record {
  prepare = λ receipts. some ("0xt", 3 ∷ []);
  broadcast = λ raw. false;
  pending = first;
}

abbrev settle_log : Log
settle_log = record {
  transaction_hash = "0xt";
  index = 0;
  block_number = 7;
  event = some (receipt_settled request "s1" "0xp" 10 1);
}

abbrev sent : List QueueCall
sent = add_receipt signed_receipt ∷ add_receipt signed_receipt ∷ send_batch client 10 ∷ []

abbrev settling : List QueueCall
settling =
    add_receipt signed_receipt
    ∷ send_batch client 10
    ∷ send_batch client 10
    ∷ observe "0xf" (settle_log ∷ [])
    ∷ []

abbrev states : Index → List QueueState
states s = map (λ row. row.state) s.queue

sends_once : states (perform_queue_calls start sent) ≡ broadcasting ∷ []
unfolding perform_queue_calls perform_queue_call enqueue enqueue_as hash_hex hex_digits settle_batch
    submit_all
sends_once = refl

settles_once : states (perform_queue_calls start settling) ≡ settled ∷ []
unfolding perform_queue_calls perform_queue_call enqueue enqueue_as hash_hex hex_digits settle_batch
    submit_all index_logs index_log apply_event
settles_once = refl

abbrev whole : List QueueCall
whole =
    add_receipt signed_receipt
    ∷ send_batch client 10
    ∷ observe "0xf" (settle_log ∷ [])
    ∷ reorganise
    ∷ send_batch client 10
    ∷ []

reopened : states (perform_queue_calls start whole) ≡ broadcasting ∷ []
unfolding perform_queue_calls perform_queue_call enqueue enqueue_as hash_hex hex_digits settle_batch
    submit_all index_logs index_log apply_event rewind revert_settlements
reopened = refl

perform-IsAgreed_example : IsAgreed (perform_queue_calls start whole)
unfolding hash_hex hex_digits
perform-IsAgreed_example = perform-IsAgreed start whole tt (refl, (tt, (tt, (tt, (tt, tt)))))

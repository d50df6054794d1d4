-- ===== src/Chain/Queue/Calls.antt =====
-- Any sequence of what the settlement side does: Enqueue and SettleBatch of
-- server/internal/chain/settlement.go, indexed logs, and rewinds.
use myference.Prelude.{
  ℕ, String, Bool, true, false, Option, none, some, List, [], ◌∷◌, ◌++◌, ◌≡◌, refl, str_eq, eq_iff,
  any, arith, Bool-cases, inl, inr, All, ◌||◌,
}
use myference.Prelude.Result.{Result, ok, err}
use myference.Store.Tables.{Status, RequestRow}
use myference.Chain.Ledger.{Log, LedgerError}
use myference.Chain.Indexing.{
  Index, QueueRow, QueueState, is_queued, index_logs, transition_settlement_request,
}
use myference.Chain.Sync.{rewind}
use myference.Chain.Queue.{
  SignedReceipt, Client, is_completed_status, queue_row, hash_hex, enqueue_as, enqueue,
  settle_batch,
}
use myference.Chain.Queue.Agreement.{
  Requests, fits, Fits, IsAgreed, move_to, moved-own, moved-other, rewind-IsAgreed,
}
use myference.Chain.Queue.Indexed.{index_logs-IsAgreed}
use myference.Chain.Queue.Runs.{settle-IsAgreed}

pub data QueueCall : Type 0 where
  add_receipt : SignedReceipt → QueueCall
  send_batch : Client → ℕ → QueueCall
  observe : String → List Log → QueueCall
  reorganise : QueueCall

-- A range of logs that fails is rolled back.
abbrev committed : Index → Result LedgerError Index → Index
committed s (ok s') = s'
committed s (err e) = s

unfoldable pub perform_queue_call : Index → QueueCall → Index
unfolding rewind
perform_queue_call s (add_receipt signed) = enqueue signed s
perform_queue_call s (send_batch client limit) = (settle_batch client limit s).0
perform_queue_call s (observe fee_recipient logs) = committed s (index_logs fee_recipient logs s)
perform_queue_call s reorganise = rewind s

unfoldable pub perform_queue_calls : Index → List QueueCall → Index
perform_queue_calls s [] = s
perform_queue_calls s (c ∷ cs) = perform_queue_calls (perform_queue_call s c) cs

abbrev is_completed : Option RequestRow → Bool
is_completed none = false
is_completed (some row) = is_completed_status row.state

-- A receipt that is added is in the queue already, or is that of a completed request.
abbrev pub IsDue : Index → QueueCall → Type 0
IsDue s (add_receipt signed) =
    let id = hash_hex signed.receipt.request_id in
    (any (is_queued id) s.queue || is_completed (s.db.requests id)) ≡ true
IsDue s c = Unit

abbrev pub AllDue : Index → List QueueCall → Type 0
AllDue s [] = Unit
AllDue s (c ∷ cs) = IsDue s c × AllDue (perform_queue_call s c) cs

append-Fits :
    (id : String) (q q' : Requests) (new : QueueRow) (rows : List QueueRow)
    → ((r : String) → str_eq id r ≡ false → q' r ≡ q r)
    → Fits q' new
    → any (is_queued id) rows ≡ false
    → All (Fits q) rows
    → All (Fits q') (rows ++ new ∷ [])
append-Fits id q q' new [] others fitting none_queued k = (fitting, tt)
append-Fits id q q' new (row ∷ rows) others fitting none_queued (here, k) =
    let other : str_eq id row.request_id ≡ false =
      ground (arith, eq_iff row.request_id id, eq_iff id row.request_id) in
    (
      rw (others row.request_id other) here,
      append-Fits id q q' new rows others fitting (ground arith) k,
    )

completed_moved :
    (o : Option RequestRow)
    → is_completed o ≡ true
    → fits QueueState.cosigned (move_to is_completed_status Status.signed o) ≡ true
completed_moved none h = cc
completed_moved (some row) h = ground arith

enqueue_as-IsAgreed :
    (id : String) (signed : SignedReceipt) (s : Index)
    → (any (is_queued id) s.queue || is_completed (s.db.requests id)) ≡ true
    → IsAgreed s
    → IsAgreed (enqueue_as id signed s)
unfolding enqueue_as
enqueue_as-IsAgreed id signed s due k = elim (Bool-cases (any (is_queued id) s.queue)) [
  | inl old ↦ rw old k
  | inr new ↦
      let after =
        transition_settlement_request id is_completed_status Status.completed Status.signed s.db in
      let moved = moved-own id is_completed_status Status.completed Status.signed s.db in
      let others = moved-other id is_completed_status Status.completed Status.signed s.db in
      rw new (
        append-Fits id s.db.requests after.requests (queue_row id signed) s.queue others
          (rw moved (completed_moved (s.db.requests id) (ground arith))) new k)
]

committed-IsAgreed :
    (s : Index) (m : Result LedgerError Index)
    → IsAgreed s
    → ((s' : Index) → m ≡ ok s' → IsAgreed s')
    → IsAgreed (committed s m)
committed-IsAgreed s (ok s') k keeps = keeps s' refl
committed-IsAgreed s (err e) k keeps = k

call-IsAgreed :
    (s : Index) (c : QueueCall) → IsAgreed s → IsDue s c → IsAgreed (perform_queue_call s c)
unfolding perform_queue_call enqueue
call-IsAgreed s (add_receipt signed) k due =
    enqueue_as-IsAgreed (hash_hex signed.receipt.request_id) signed s due k
call-IsAgreed s (send_batch client limit) k due = settle-IsAgreed client limit s k
call-IsAgreed s (observe fee_recipient logs) k due =
    committed-IsAgreed s (index_logs fee_recipient logs s) k
      (λ s' h. index_logs-IsAgreed fee_recipient logs s s' k h)
call-IsAgreed s reorganise k due = rewind-IsAgreed s k

-- The settlement queue and the store agree: if the request of every co-signed, broadcast and settled
-- receipt in the queue is signed, submitted and settled, it stays so, whatever receipts are added,
-- batches sent, logs indexed and rewinds made and whichever of them fail, where a receipt that is
-- added is in the queue already or is that of a completed request.
pub perform-IsAgreed :
    (s : Index) (cs : List QueueCall)
    → IsAgreed s
    → AllDue s cs
    → IsAgreed (perform_queue_calls s cs)
unfolding perform_queue_calls
perform-IsAgreed s [] k due = k
perform-IsAgreed s (c ∷ cs) k (here, rest) =
    perform-IsAgreed (perform_queue_call s c) cs (call-IsAgreed s c k here) rest

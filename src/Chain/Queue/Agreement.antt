-- ===== src/Chain/Queue/Agreement.antt =====
-- The queue and the requests say the same of a settlement.
use myference.Prelude.{
  String, Bool, true, false, Option, none, some, List, [], ◌∷◌, ◌≡◌, refl, str_eq, eq_iff, any,
  arith, Bool-cases, Option-cases, inl, inr, All, if◌then◌else◌,
}
use myference.Prelude.Result.{ok}
use myference.Store.Tables.{Status, RequestRow, Db}
use myference.Chain.Ledger.{SettlementRow}
use myference.Chain.Updates.{is_settled}
use myference.Chain.Indexing.{
  QueueState, QueueRow, Index, is_queued, update_queue, is_submitted, is_settled_status,
  transition_settlement_request, queue_settled, settled_state, reverted_state, charge_local,
  write_settlement, apply_settlement, queue_reverted,
}
use myference.Chain.Sync.{rewind, revert_settlements, revert_settlement}
use myference.Chain.Queue.{is_signed}

abbrev pub Requests : Type 0
Requests = String → Option RequestRow

-- The state of a request that goes with a state of the queue.
abbrev pub fits : QueueState → Option RequestRow → Bool
fits QueueState.failed row = true
fits q none = false
fits QueueState.cosigned (some row) = is_signed row.state
fits QueueState.broadcasting (some row) = is_submitted row.state
fits QueueState.settled (some row) = is_settled_status row.state

abbrev pub Fits : Requests → QueueRow → Type 0
Fits requests row = fits row.state (requests row.request_id) ≡ true

-- The request of every receipt in the queue is signed, submitted or settled as the queue says.
abbrev pub IsAgreed : Index → Type 0
IsAgreed s = All (Fits s.db.requests) s.queue

pub update_queue-All :
    (id : String) (f : QueueRow → QueueRow) (q q' : Requests) (rows : List QueueRow)
    → ((r : String) → str_eq id r ≡ false → q' r ≡ q r)
    → ((row : QueueRow) → row.request_id ≡ id → Fits q row → Fits q' (f row))
    → All (Fits q) rows
    → All (Fits q') (update_queue id f rows)
update_queue-All id f q q' [] others step k = tt
update_queue-All id f q q' (row ∷ rows) others step (here, k) = (
  elim (Bool-cases (is_queued id row)) [
    | inl hit ↦ rw hit (step row (ground (arith, eq_iff row.request_id id)) here)
    | inr miss ↦ rw miss (
        ground
          (arith, others row.request_id, here, eq_iff row.request_id id, eq_iff id row.request_id))
  ],
  update_queue-All id f q q' rows others step k,
)

-- What a transition of a request leaves.
pub moved-other :
    (id : String) (test : Status → Bool) (from to : Status) (db : Db) (r : String)
    → str_eq id r ≡ false
    → (transition_settlement_request id test from to db).requests r ≡ db.requests r
moved-other id test from to db r h = elim (Option-cases (db.requests id)) [
  | inl missing ↦ ground arith
  | inr (row, found) ↦ ground arith
]

abbrev pub move_to : (Status → Bool) → Status → Option RequestRow → Option RequestRow
move_to test to none = none
move_to test to (some row) = some (if test row.state then record row { state = to } else row)

pub moved-own :
    (id : String) (test : Status → Bool) (from to : Status) (db : Db)
    → (transition_settlement_request id test from to db).requests id
      ≡ move_to test to (db.requests id)
moved-own id test from to db = elim (Option-cases (db.requests id)) [
  | inl missing ↦ ground arith
  | inr (row, found) ↦ ground (arith, eq_iff id id)
]

fits-settled :
    (q : QueueState) (o : Option RequestRow)
    → fits q o ≡ true
    → fits (settled_state q) (move_to is_submitted Status.settled o) ≡ true
fits-settled QueueState.failed o h = refl
fits-settled QueueState.cosigned none h = cc
fits-settled QueueState.broadcasting none h = cc
fits-settled QueueState.settled none h = cc
fits-settled QueueState.cosigned (some row) h = ground arith
fits-settled QueueState.broadcasting (some row) h = ground arith
fits-settled QueueState.settled (some row) h = ground arith

fits-reverted :
    (q : QueueState) (o : Option RequestRow)
    → fits q o ≡ true
    → fits (reverted_state q) (move_to is_settled_status Status.submitted o) ≡ true
fits-reverted QueueState.failed o h = refl
fits-reverted QueueState.cosigned none h = cc
fits-reverted QueueState.broadcasting none h = cc
fits-reverted QueueState.settled none h = cc
fits-reverted QueueState.cosigned (some row) h = ground arith
fits-reverted QueueState.broadcasting (some row) h = ground arith
fits-reverted QueueState.settled (some row) h = ground arith

-- A queue that is changed together with its request, from tables with the same requests.
pub moved-IsAgreed :
    (id : String) (f : QueueRow → QueueRow) (test : Status → Bool) (from to : Status) (q : Requests)
    (db : Db) (rows : List QueueRow)
    → db.requests ≡ q
    → ((row : QueueRow) → row.request_id ≡ id → (f row).request_id ≡ id)
    → ((row : QueueRow)
        → row.request_id ≡ id
        → Fits q row
        → fits (f row).state (move_to test to (q id)) ≡ true)
    → All (Fits q) rows
    → All
        (Fits (transition_settlement_request id test from to db).requests)
        (update_queue id f rows)
moved-IsAgreed id f test from to q db rows same names step k =
    update_queue-All id f q (transition_settlement_request id test from to db).requests rows
      (λ r other. rw (moved-other id test from to db r other) (ground (arith, same)))
      (λ row own here. rw (names row own, moved-own id test from to db, same) (step row own here)) k

pub settlement-IsAgreed :
    (fee_recipient : String) (row : SettlementRow) (s s' : Index)
    → IsAgreed s
    → apply_settlement fee_recipient row s ≡ ok s'
    → IsAgreed s'
settlement-IsAgreed fee_recipient row s s' k h =
    elim (Bool-cases (any (is_settled row.request_id) s.ledger.settlements)) [
      | inl old ↦ let e : s' ≡ s = ground arith in rw e k
      | inr new ↦
          let e : s' ≡ write_settlement fee_recipient row s = ground arith in
          rw e (
            moved-IsAgreed row.request_id queue_settled is_submitted Status.submitted Status.settled
              s.db.requests (charge_local row s.db) s.queue refl (λ r own. own)
              (λ r own here. fits-settled r.state (s.db.requests row.request_id) (rw own at here))
              k)
    ]

revert-IsAgreed :
    (rows : List SettlementRow) (s : Index) → IsAgreed s → IsAgreed (revert_settlements rows s)
unfolding revert_settlements
revert-IsAgreed [] s k = k
revert-IsAgreed (row ∷ rows) s k =
    let id = row.request_id in
    revert-IsAgreed rows (revert_settlement id s) (
      moved-IsAgreed id queue_reverted is_settled_status Status.settled Status.submitted
        s.db.requests _ s.queue refl (λ r own. own)
        (λ r own here. fits-reverted r.state (s.db.requests id) (rw own at here)) k)

pub rewind-IsAgreed : (s : Index) → IsAgreed s → IsAgreed (rewind s)
unfolding rewind
rewind-IsAgreed s k = revert-IsAgreed s.ledger.settlements s k

-- ===== src/Chain/Queue/Runs.antt =====
-- A batch of SettleBatch keeps the queue and the requests in agreement.
use myference.Prelude.{
  ℕ, String, Bool, true, false, ◌||◌, Option, none, some, List, [], ◌∷◌, ◌≡◌, refl, sym, str_eq,
  eq_iff, keep, take, zero, suc, arith, ◌==◌, Bool-cases, Option-cases, inl, inr, All,
}
use myference.Store.Tables.{Status, RequestRow, Db}
use myference.Chain.Indexing.{
  QueueState, QueueRow, Index, is_submitted, transition_settlement_request,
}
use myference.Chain.Queue.{
  is_waiting, Client, is_signed, is_cosigned, queue_broadcast, submit_one, submit_all, settle_batch,
  settle_rows, send_transaction, transaction_of, signed_of,
}
use myference.Chain.Queue.{is_cosigned_state}
use myference.Chain.Queue.Agreement.{
  Requests, fits, Fits, IsAgreed, move_to, moved-own, moved-other, moved-IsAgreed,
}

-- A request whose receipt may be submitted.
abbrev is_ready : Option RequestRow → Bool
is_ready none = false
is_ready (some row) = is_signed row.state || is_submitted row.state

abbrev Ready : Requests → QueueRow → Type 0
Ready q row = is_ready (q row.request_id) ≡ true

ready_moved :
    (o : Option RequestRow)
    → is_ready o ≡ true
    → (is_ready (move_to is_signed Status.submitted o) ≡ true)
      × (fits QueueState.broadcasting (move_to is_signed Status.submitted o) ≡ true)
ready_moved none h = cc
ready_moved (some row) h = (ground arith, ground arith)

cosigned-ready :
    (q : QueueState) (o : Option RequestRow)
    → is_cosigned_state q ≡ true
    → fits q o ≡ true
    → is_ready o ≡ true
cosigned-ready QueueState.failed o c h = cc
cosigned-ready QueueState.broadcasting o c h = cc
cosigned-ready QueueState.settled o c h = cc
cosigned-ready QueueState.cosigned none c h = cc
cosigned-ready QueueState.cosigned (some row) c h = ground arith

keep-Ready :
    (q : Requests) (rows : List QueueRow)
    → All (Fits q) rows
    → All (Ready q) (keep is_cosigned rows)
keep-Ready q [] k = tt
keep-Ready q (row ∷ rows) (here, k) = elim (Bool-cases (is_cosigned row)) [
  | inl hit ↦ rw hit (cosigned-ready row.state (q row.request_id) hit here, keep-Ready q rows k)
  | inr miss ↦ rw miss (keep-Ready q rows k)
]

take-Ready :
    (q : Requests) (n : ℕ) (rows : List QueueRow) → All (Ready q) rows → All (Ready q) (take n rows)
take-Ready q zero rows k = tt
take-Ready q (suc n) [] k = tt
take-Ready q (suc n) (row ∷ rows) (here, k) = (here, take-Ready q n rows k)

abbrev submitted_db : String → Db → Db
submitted_db id db = transition_settlement_request id is_signed Status.signed Status.submitted db

still-Ready :
    (id : String) (db : Db) (rows : List QueueRow)
    → All (Ready db.requests) rows
    → All (Ready (submitted_db id db).requests) rows
still-Ready id db [] k = tt
still-Ready id db (row ∷ rows) (here, k) = (
  elim (Bool-cases (str_eq id row.request_id)) [
    | inl own ↦
        let e : id ≡ row.request_id = ground (arith, eq_iff id row.request_id) in
        let moved = moved-own id is_signed Status.signed Status.submitted db in
        let ready : is_ready (db.requests id) ≡ true = rw e here in
        rw (sym e, moved) (ready_moved (db.requests id) ready).0
    | inr other ↦
        rw (moved-other id is_signed Status.signed Status.submitted db row.request_id other) here
  ],
  still-Ready id db rows k,
)

submit_all-IsAgreed :
    (hash : String) (raw : List ℕ) (batch : List QueueRow) (s : Index)
    → All (Ready s.db.requests) batch
    → IsAgreed s
    → IsAgreed (submit_all hash raw batch s)
unfolding submit_all
submit_all-IsAgreed hash raw [] s ready k = k
submit_all-IsAgreed hash raw (row ∷ rows) s (here, ready) k =
    let id = row.request_id in
    submit_all-IsAgreed hash raw rows (submit_one hash raw id s) (still-Ready id s.db rows ready) (
      moved-IsAgreed id (queue_broadcast hash raw) is_signed Status.signed Status.submitted
        s.db.requests s.db s.queue refl (λ r own. own)
        (λ r own fitting. (ready_moved (s.db.requests id) here).1) k)

send-IsAgreed :
    (client : Client) (hash : String) (raw : List ℕ) (s : Index)
    → IsAgreed s
    → IsAgreed (send_transaction client hash raw s).0
send-IsAgreed client hash raw s k = elim (Bool-cases (client.broadcast raw)) [
  | inl sent ↦ rw sent k
  | inr lost ↦ rw lost k
]

settle_rows-IsAgreed :
    (client : Client) (batch : List QueueRow) (s : Index)
    → All (Ready s.db.requests) batch
    → IsAgreed s
    → IsAgreed (settle_rows client batch s).0
settle_rows-IsAgreed client [] s ready k = k
settle_rows-IsAgreed client (row ∷ rows) s ready k =
    elim (Option-cases (client.prepare (signed_of (row ∷ rows)))) [
      | inl failed ↦ rw failed k
      | inr ((hash, raw), made) ↦ rw made (
          send-IsAgreed client hash raw (submit_all hash raw (row ∷ rows) s)
            (submit_all-IsAgreed hash raw (row ∷ rows) s ready k))
    ]

pub settle-IsAgreed :
    (client : Client) (limit : ℕ) (s : Index)
    → IsAgreed s
    → IsAgreed (settle_batch client limit s).0
unfolding settle_batch
settle-IsAgreed client limit s k = elim (Bool-cases (limit == 0)) [
  | inl nothing ↦ rw nothing k
  | inr some_limit ↦
      elim (Option-cases (transaction_of (client.pending (keep is_waiting s.queue)))) [
        | inr ((hash, raw), waiting) ↦ rw (some_limit, waiting) (send-IsAgreed client hash raw s k)
        | inl idle ↦
            rw (some_limit, idle)
              (settle_rows-IsAgreed client (take limit (keep is_cosigned s.queue)) s
                (take-Ready s.db.requests limit (keep is_cosigned s.queue)
                  (keep-Ready s.db.requests s.queue k))
                k)
      ]
]

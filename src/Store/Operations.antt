-- ===== src/Store/Operations.antt =====
-- Any sequence of reservations, transitions, completions and aborts keeps the sessions solvent and the outbox true.
use myference.Prelude.{
  String, true, false, Option, none, some, List, [], ◌∷◌, ◌++◌, ◌≡◌, refl, Option-cases, inl, inr,
  Bool-cases, ◌&&◌, ◌==◌, str_eq, if◌then◌else◌, arith, All,
}
use myference.Prelude.Result.{Result, ok, err}
use myference.Protocol.Chunks.{set_key}
use myference.Store.Tables.{
  Status, created, reserved, offered, streaming, completed, RequestRow, OutboxRow, Db, StoreError,
  set_state, emit,
}
use myference.Store.Requests.{transitions, transition_request}
use myference.Store.Inference.{
  same_status, completes, write_completion, is_executing, request_row, InferenceReservation,
  ReceiptProposal, live_rows, write_abort, reserve_inference, complete_inference, abort_inference,
}
use myference.Store.Inference.Solvency.{
  IsSolvent, reserve-Reserved, reserve-IsSolvent, abort-IsSolvent, complete-IsSolvent,
  transition-IsSolvent,
}

-- The state that the last event of a request names.
abbrev pub last_event : String → List OutboxRow → Option Status
last_event r [] = none
last_event r (e ∷ es) = elim (last_event r es) [
  | some s ↦ some s
  | none ↦ if str_eq e.aggregate_id r then some e.to else none
]

last_event-append :
    (r : String) (es : List OutboxRow) (e : OutboxRow)
    → last_event r (es ++ e ∷ []) ≡ (if str_eq e.aggregate_id r then some e.to else last_event r es)
last_event-append r [] e = ground arith
last_event-append r (x ∷ es) e = ground (arith, last_event-append r es e)

abbrev IsLegal : OutboxRow → Type 0
IsLegal e = transitions e.from e.to ≡ true

All-append :
    (es : List OutboxRow) (e : OutboxRow) → All IsLegal es → IsLegal e → All IsLegal (es ++ e ∷ [])
All-append [] e h k = (k, tt)
All-append (x ∷ es) e h k = (h.0, All-append es e h.1 k)

abbrev Requests : Type 0
Requests = String → Option RequestRow

-- Every event is an allowed transition, and the last one of a request names its state.
abbrev pub Logged : Requests → List OutboxRow → Type 0
Logged requests outbox =
    All IsLegal outbox
    × ((r : String) (row : RequestRow)
        → requests r ≡ some row
        → last_event r outbox ≡ some row.state)

abbrev pub IsLogged : Db → Type 0
IsLogged db = Logged db.requests db.outbox

-- The event of a write to one request.
abbrev event : String → Status → Status → OutboxRow
event id from to = record { aggregate_id = id; from = from; to = to; published = false }

emit-Logged :
    (requests requests' : Requests) (outbox : List OutboxRow) (id : String) (row : RequestRow)
    (from to : Status)
    → Logged requests outbox
    → transitions from to ≡ true
    → row.state ≡ to
    → ((r : String) → requests' r ≡ (if str_eq id r then some row else requests r))
    → Logged requests' (outbox ++ event id from to ∷ [])
emit-Logged requests requests' outbox id row from to l legal state written = (
  All-append outbox (event id from to) l.0 legal,
  λ r found h.
      ground (arith, written r, last_event-append r outbox (event id from to), l.1 r found),
)

transition-IsLogged :
    (db : Db) (id : String) (next : Status) {db' : Db}
    → IsLogged db
    → transition_request db id next ≡ ok db'
    → IsLogged db'
unfolding transition_request
transition-IsLogged db id next {db'} l h = elim (Option-cases (db.requests id)) [
  | inl missing ↦ absurd (ground arith)
  | inr (row, found) ↦
      let e : db' ≡ emit id row.state next (set_state id row next db) = ground arith in
      rw e (
        emit-Logged db.requests _ db.outbox id (record row { state = next }) row.state next l
          (ground arith) refl (λ r. refl))
]

write_abort-IsLogged :
    (db : Db) (id : String) (terminal : Status) (row : RequestRow)
    → IsLogged db
    → transitions row.state terminal ≡ true
    → IsLogged (write_abort db id terminal row)
unfolding write_abort
write_abort-IsLogged db id terminal row l legal =
    elim (Bool-cases (live_rows id db.reservations == 1 && is_executing row.state)) [
      | inl live ↦ rw live (
          emit-Logged db.requests _ db.outbox id (record row { state = terminal }) row.state
            terminal l legal refl (λ r. refl))
      | inr idle ↦ rw idle (
          emit-Logged db.requests _ db.outbox id (record row { state = terminal }) row.state
            terminal l legal refl (λ r. refl))
    ]

abort-IsLogged :
    (db : Db) (id : String) (terminal : Status) {db' : Db}
    → IsLogged db
    → abort_inference db id terminal ≡ ok db'
    → IsLogged db'
unfolding abort_inference
abort-IsLogged db id terminal {db'} l h = elim (Option-cases (db.requests id)) [
  | inl missing ↦ absurd (ground arith)
  | inr (row, found) ↦ elim (Bool-cases (same_status row.state terminal)) [
    | inl same ↦ let e : db' ≡ db = ground arith in rw e l
    | inr changed ↦
        let e : db' ≡ write_abort db id terminal row = ground arith in
        let legal : transitions row.state terminal ≡ true = ground arith in
        rw e (write_abort-IsLogged db id terminal row l legal)
  ]
]

complete-IsLogged :
    (db : Db) (p : ReceiptProposal) {db' : Db}
    → IsLogged db
    → complete_inference db p ≡ ok db'
    → IsLogged db'
unfolding complete_inference transitions
complete-IsLogged db p {db'} l h =
    elim (Option-cases (completes p.row (db.requests p.request_id))) [
      | inl missing ↦ let e : db' ≡ db = ground arith in rw e l
      | inr (row, found) ↦
          let e : db' ≡ write_completion db p row = ground arith in
          rw e (
            emit-Logged db.requests _ db.outbox p.request_id (record row { state = completed })
              streaming completed l refl refl (λ r. refl))
    ]

reserve-IsLogged :
    (db : Db) (r : InferenceReservation) {db' : Db}
    → IsLogged db
    → reserve_inference db r ≡ ok db'
    → IsLogged db'
unfolding transitions
reserve-IsLogged db r {db'} l h =
    let w = reserve-Reserved db r h in
    let row = request_row r w.route w.cost in
    let id = r.request_id in
    let first =
      emit-Logged db.requests (set_key db.requests id (some (row reserved))) db.outbox id
        (row reserved) created reserved l refl refl (λ q. refl) in
    rw w.written (
      emit-Logged (set_key db.requests id (some (row reserved))) _ _ id (row offered) reserved
        offered first refl refl (λ q. ground arith))

-- The operations of the store on requests.
pub data Operation : Type 0 where
  reserve : InferenceReservation → Operation
  transition : String → Status → Operation
  complete : ReceiptProposal → Operation
  abort : String → Status → Operation

-- A transaction that fails is rolled back.
abbrev pub committed : Db → Result StoreError Db → Db
committed db (ok db') = db'
committed db (err e) = db

abbrev pub attempt : Db → Operation → Result StoreError Db
attempt db (reserve r) = reserve_inference db r
attempt db (transition id next) = transition_request db id next
attempt db (complete p) = complete_inference db p
attempt db (abort id terminal) = abort_inference db id terminal

unfoldable pub perform : Db → List Operation → Db
perform db [] = db
perform db (o ∷ os) = perform (committed db (attempt db o)) os

module _ (P : Db → Type 0)
    (keep_reserve : (db : Db) (r : InferenceReservation) (db' : Db)
      → P db
      → reserve_inference db r ≡ ok db'
      → P db')
    (keep_transition : (db : Db) (id : String) (next : Status) (db' : Db)
      → P db
      → transition_request db id next ≡ ok db'
      → P db')
    (keep_complete : (db : Db) (p : ReceiptProposal) (db' : Db)
      → P db
      → complete_inference db p ≡ ok db'
      → P db')
    (keep_abort : (db : Db) (id : String) (t : Status) (db' : Db)
      → P db
      → abort_inference db id t ≡ ok db'
      → P db') where
  kept_by_result :
      (db : Db) (m : Result StoreError Db)
      → P db
      → ((db' : Db) → m ≡ ok db' → P db')
      → P (committed db m)
  kept_by_result db (ok db') p k = k db' refl
  kept_by_result db (err e) p k = p

  attempt_keeps : (db : Db) (o : Operation) → P db → P (committed db (attempt db o))
  attempt_keeps db (reserve r) p =
      kept_by_result db (reserve_inference db r) p (λ db' h. keep_reserve db r db' p h)
  attempt_keeps db (transition id next) p =
      kept_by_result db (transition_request db id next) p
        (λ db' h. keep_transition db id next db' p h)
  attempt_keeps db (complete q) p =
      kept_by_result db (complete_inference db q) p (λ db' h. keep_complete db q db' p h)
  attempt_keeps db (abort id t) p =
      kept_by_result db (abort_inference db id t) p (λ db' h. keep_abort db id t db' p h)

  perform_keeps : (db : Db) (os : List Operation) → P db → P (perform db os)
  unfolding perform
  perform_keeps db [] p = p
  perform_keeps db (o ∷ os) p =
      perform_keeps (committed db (attempt db o)) os (attempt_keeps db o p)

-- If the open reservations of every session are within its confirmed balance, they stay so,
-- whatever reservations, transitions, completions and aborts are made and whichever of them fail.
pub perform-IsSolvent : (db : Db) (os : List Operation) → IsSolvent db → IsSolvent (perform db os)
perform-IsSolvent =
    perform_keeps IsSolvent (λ db r db' p h. reserve-IsSolvent db r p h)
      (λ db id next db' p h. transition-IsSolvent db id next p h)
      (λ db q db' p h. complete-IsSolvent db q p h) (λ db id t db' p h. abort-IsSolvent db id t p h)

-- If every event of the outbox is an allowed transition and the last event of each request names
-- the state that the request is in, it stays so, whatever reservations, transitions, completions and
-- aborts are made and whichever of them fail.
pub perform-IsLogged : (db : Db) (os : List Operation) → IsLogged db → IsLogged (perform db os)
perform-IsLogged =
    perform_keeps IsLogged (λ db r db' p h. reserve-IsLogged db r p h)
      (λ db id next db' p h. transition-IsLogged db id next p h)
      (λ db q db' p h. complete-IsLogged db q p h) (λ db id t db' p h. abort-IsLogged db id t p h)

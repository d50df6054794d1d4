-- ===== src/Store/Inference/Aborts.antt =====
-- When an abort frees what a request holds, and when it does not.
use mathlib.Core.Option
use myference.Prelude.{String, some, List, [], ◌∷◌, ◌≡◌, ◌⊎◌, refl, eq_iff, arith}
use myference.Prelude.Result.{ok, err}
use myference.Store.Tables.{
  Status, offered, failed, invalid_transition, RequestRow, ReservationRow, Db,
}
use myference.Store.Requests.{transitions}
use myference.Store.Inference.{release, live_rows, abort_inference}

-- A request that is offered cannot be aborted as failed: the abort is refused as an invalid
-- transition.
pub offered_abort_failed :
    (db : Db) (id : String) (row : RequestRow)
    → db.requests id ≡ some row
    → row.state ≡ offered
    → abort_inference db id failed ≡ err invalid_transition
unfolding abort_inference transitions
offered_abort_failed db id row h e = ground arith

-- `release` leaves nothing of the request live.
live_rows-release : (id : String) (rows : List ReservationRow) → live_rows id (release id rows) ≡ 0
unfolding live_rows release
live_rows-release id [] = refl
live_rows-release id (row ∷ rows) = ground (arith, live_rows-release id rows)

-- An abort that succeeds leaves the request in the terminal state. If it changed the state, the
-- request holds no reservation any more.
pub abort_frees :
    (db : Db) (id : String) (terminal : Status) (row : RequestRow) {db' : Db}
    → db.requests id ≡ some row
    → abort_inference db id terminal ≡ ok db'
    → (Option.map (λ (q : RequestRow). q.state) (db'.requests id) ≡ some terminal)
      × ((row.state ≡ terminal) ⊎ (live_rows id db'.reservations ≡ 0))
unfolding abort_inference
abort_frees db id terminal row found h =
    (ground (arith, eq_iff id id), ground (arith, live_rows-release id db.reservations))

-- After an abort that succeeded, the same abort succeeds again and changes nothing.
pub abort_idempotent :
    (db : Db) (id : String) (terminal : Status) {db' : Db}
    → abort_inference db id terminal ≡ ok db'
    → abort_inference db' id terminal ≡ ok db'
unfolding abort_inference
abort_idempotent db id terminal h = ground (arith, eq_iff id id)

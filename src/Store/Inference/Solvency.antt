-- ===== src/Store/Inference/Solvency.antt =====
-- The open reservations of a session never pass its confirmed balance.
use myference.Prelude.{
  ℕ, ◌+◌, ◌≤◌, String, Option, none, some, List, [], ◌∷◌, ◌≡◌, ◌≢◌, eq_iff, Option-cases, inl, inr,
  arith,
}
use myference.Prelude.Result.{ok, Result-cases}
use myference.Router.{worst_case_cost}
use myference.Store.Tables.{Status, SessionRow, RouteRow, ReservationRow, Db}
use myference.Store.Requests.{transition_request}
use myference.Store.Inference.{
  InferenceReservation, ReceiptProposal, locked, release, routable, rates_of, write_reservation,
  reserve_inference, complete_inference, abort_inference,
}

abbrev pub IsSolvent : Db → Type 0
IsSolvent db =
    (s : String) (row : SessionRow)
    → db.sessions s ≡ some row
    → locked s db.reservations ≤ row.confirmed_balance

-- What a successful `ReserveInference` has found and written.
pub record Reserved (db : Db) (r : InferenceReservation) (db' : Db) : Type 0 where
  pub session : SessionRow
  pub route : RouteRow
  pub cost : ℕ
  pub found_session : db.sessions r.session_id ≡ some session
  pub owned : session.account_id ≡ r.account_id
  pub fits : locked r.session_id db.reservations + cost ≤ session.confirmed_balance
  pub within_spend : cost ≤ r.maximum_spend
  pub positive : cost ≢ 0
  pub found_route : db.routes r.machine_id r.offer_id ≡ some route
  pub has_room : route.capacity ≢ 0
  pub priced :
      worst_case_cost
        (rates_of route)
        r.maximum_input_tokens
        r.maximum_output_tokens
        r.maximum_compute_milliseconds
      ≡ ok cost
  pub fresh : db.requests r.request_id ≡ none
  pub written : db' ≡ write_reservation db r route cost

routable_lem :
    (o : Option RouteRow) (version : ℕ) {route : RouteRow}
    → routable o version ≡ some route
    → (o ≡ some route) × (route.capacity ≢ 0)
routable_lem none version h = cc
routable_lem (some found) version h = ground arith

pub reserve-Reserved :
    (db : Db) (r : InferenceReservation) {db' : Db}
    → reserve_inference db r ≡ ok db'
    → Reserved db r db'
unfolding reserve_inference
reserve-Reserved db r {db'} h = elim (Option-cases (db.sessions r.session_id)) [
  | inl missing ↦ absurd (ground arith)
  | inr (session, s) ↦
      elim (Option-cases (routable (db.routes r.machine_id r.offer_id) r.price_version)) [
        | inl missing ↦ absurd (ground arith)
        | inr (route, t) ↦
            elim (Result-cases (
              worst_case_cost (rates_of route) r.maximum_input_tokens r.maximum_output_tokens
                r.maximum_compute_milliseconds)) [
                  | inr (e, w) ↦ absurd (ground arith)
                  | inl (cost, w) ↦
                      let (found_route, has_room) = routable_lem _ _ t in
                      record {
                        session = session;
                        route = route;
                        cost = cost;
                        found_session = s;
                        owned = ground (arith, eq_iff session.account_id r.account_id);
                        fits = ground arith;
                        within_spend = ground arith;
                        positive = ground arith;
                        found_route = found_route;
                        has_room = has_room;
                        priced = w;
                        fresh = ground arith;
                        written = ground arith;
                      }
                ]
      ]
]

-- A session that pays for the reservation holds its amount more; another is as it was.
pub reserve-IsSolvent :
    (db : Db) (r : InferenceReservation) {db' : Db}
    → IsSolvent db
    → reserve_inference db r ≡ ok db'
    → IsSolvent db'
unfolding locked
reserve-IsSolvent db r solvent h s row found =
    let w = reserve-Reserved db r h in ground (arith, w, solvent s row, eq_iff r.session_id s)

locked-release :
    (s id : String) (rows : List ReservationRow) → locked s (release id rows) ≤ locked s rows
unfolding locked release
locked-release s id [] = omega arith
locked-release s id (row ∷ rows) = ground (arith, locked-release s id rows)

pub abort-IsSolvent :
    (db : Db) (id : String) (terminal : Status) {db' : Db}
    → IsSolvent db
    → abort_inference db id terminal ≡ ok db'
    → IsSolvent db'
unfolding abort_inference
abort-IsSolvent db id terminal solvent h s row found =
    ground (arith, solvent s row, locked-release s id db.reservations)

pub complete-IsSolvent :
    (db : Db) (p : ReceiptProposal) {db' : Db}
    → IsSolvent db
    → complete_inference db p ≡ ok db'
    → IsSolvent db'
unfolding complete_inference
complete-IsSolvent db p solvent h s row found = ground (arith, solvent s row)

pub transition-IsSolvent :
    (db : Db) (id : String) (next : Status) {db' : Db}
    → IsSolvent db
    → transition_request db id next ≡ ok db'
    → IsSolvent db'
unfolding transition_request
transition-IsSolvent db id next solvent h s row found = ground (arith, solvent s row)

-- ===== src/Store/Capacity/Offers.antt =====
-- The reservations and the reports of capacity leave every offer with one request at most.
use myference.Prelude.{
  ℕ, ◌+◌, ◌-◌, ◌≤◌, String, ◌&&◌, some, List, [], ◌∷◌, ◌≡◌, refl, str_eq, eq_iff, arith,
  Option-cases, inl, inr, if◌then◌else◌,
}
use myference.Prelude.Result.{Result, ok, err}
use myference.Protocol.Chunks.{set_key}
use myference.Protocol.Messages.{OfferCapacity, Capacity}
use myference.Store.Tables.{StoreError, offered, RouteRow, RequestRow, Db, set_capacity}
use myference.Store.Requests.{transition_request}
use myference.Store.Inference.{
  live_rows, InferenceReservation, request_row, write_reservation, reserve_inference,
  complete_inference, abort_inference,
}
use myference.Store.Inference.Solvency.{reserve-Reserved}
use myference.Store.Capacity.{
  executing, stop_machine, open_offer, available_of, open_offers, update_provider_capacity,
}
use myference.Store.Operations.{Operation, reserve, transition, complete, abort, committed, attempt}
use myference.Store.Capacity.Stops.{transition-IsSingle, complete-IsSingle, abort-IsSingle}
use myference.Store.Capacity.Single.{Requests, executing-set_key, executing_congr, IsSingle}

-- What a reservation makes of the requests.
abbrev offered_requests : InferenceReservation → RouteRow → ℕ → Requests → Requests
offered_requests r route cost q = set_key q r.request_id (some (request_row r route cost offered))

written-requests :
    (db : Db) (r : InferenceReservation) (route : RouteRow) (cost : ℕ) (id : String)
    → (write_reservation db r route cost).requests id ≡ offered_requests r route cost db.requests id
written-requests db r route cost id = ground arith

taken-route :
    (db : Db) (m o m' o' : String) (route : RouteRow)
    → (set_capacity m o (λ n. n - 1) db).routes m' o' ≡ some route
    → (old : RouteRow) × (db.routes m' o' ≡ some old)
      × (route.capacity ≡ (if str_eq m m' && str_eq o o' then old.capacity - 1 else old.capacity))
taken-route db m o m' o' route there = elim (Option-cases (db.routes m' o')) [
  | inl missing ↦ absurd (ground arith)
  | inr (old, found) ↦ (old, found, ground arith)
]

pub reserve-IsSingle :
    (db : Db) (r : InferenceReservation) (db' : Db)
    → IsSingle db
    → reserve_inference db r ≡ ok db'
    → IsSingle db'
unfolding executing live_rows
reserve-IsSingle db r db' s h =
    let w = reserve-Reserved db r h in
    let id = r.request_id in
    let row = request_row r w.route w.cost offered in
    let none_live = s.unknown id w.fresh in
    let q' = offered_requests r w.route w.cost db.requests in
    let written = written-requests db r w.route w.cost in
    rw w.written (record {
      single = λ m o route there.
          let (old, before, taken) = taken-route db r.machine_id r.offer_id m o route there in
          let counted = executing-set_key m o id (some row) db.requests db.reservations in
          let same =
            executing_congr m o (write_reservation db r w.route w.cost).requests q' db.reservations
              written in
          ground (
            arith,
            s.single m o old,
            counted,
            same,
            none_live,
            w.fresh,
            w.has_room,
            w.found_route,
            eq_iff r.machine_id m,
            eq_iff r.offer_id o,
            written id,
            eq_iff id id,
          );
      live = λ other other_row there runs_now.
          ground (arith, written other, none_live, s.live other other_row, eq_iff id other);
      unknown = λ other missing. ground (arith, written other, s.unknown other, eq_iff id other);
      begun = λ other other_row there.
          ground (arith, written other, s.begun other other_row, eq_iff id other);
    })

-- A change of the capacities alone, to at most what the requests that run leave of one.
routed-IsSingle :
    (db db' : Db)
    → IsSingle db
    → db'.requests ≡ db.requests
    → db'.reservations ≡ db.reservations
    → ((m o : String) (route : RouteRow)
        → db'.routes m o ≡ some route
        → route.capacity + executing m o db.requests db.reservations ≤ 1)
    → IsSingle db'
routed-IsSingle db db' s requests reservations fits = record {
  single = λ m o route there. ground (arith, requests, reservations, fits m o route);
  live = λ id row there runs_now. ground (arith, requests, reservations, s.live id row);
  unknown = λ id missing. ground (arith, requests, reservations, s.unknown id);
  begun = λ id row there. ground (arith, requests, s.begun id row);
}

stop-IsSingle : (machine : String) (db : Db) → IsSingle db → IsSingle (stop_machine machine db)
stop-IsSingle machine db s =
    routed-IsSingle db (stop_machine machine db) s refl refl λ m o route there.
      elim (Option-cases (db.routes m o)) [
        | inl missing ↦ absurd (ground arith)
        | inr (old, before) ↦ ground (arith, s.single m o old before)
      ]

open-IsSingle :
    (machine offer : String) (version available : ℕ) (db : Db)
    → available ≤ 1
    → IsSingle db
    → IsSingle (open_offer machine offer version available db)
unfolding open_offer
open-IsSingle machine offer version available db small s =
    routed-IsSingle db (open_offer machine offer version available db) s refl refl
      λ m o route there. elim (Option-cases (db.routes m o)) [
        | inl missing ↦ absurd (ground arith)
        | inr (old, before) ↦
            ground (arith, s.single m o old before, eq_iff machine m, eq_iff offer o)
      ]

open_offers-IsSingle :
    (machine : String) (available : ℕ) (offers : List OfferCapacity) (db : Db)
    → IsSingle db
    → IsSingle (open_offers machine available offers db)
unfolding open_offers
open_offers-IsSingle machine available [] db s = s
open_offers-IsSingle machine available (offer ∷ offers) db s =
    open_offers-IsSingle machine available offers
      (open_offer machine offer.offer_id offer.price_version (available_of available) db)
      (open-IsSingle machine offer.offer_id offer.price_version (available_of available) db
        (ground arith) s)

pub update-IsSingle :
    (machine : String) (capacity : Capacity) (db : Db)
    → IsSingle db
    → IsSingle (update_provider_capacity machine capacity db)
unfolding update_provider_capacity
update-IsSingle machine capacity db s =
    open_offers-IsSingle machine capacity.available capacity.offers (stop_machine machine db)
      (stop-IsSingle machine db s)

-- A call of the store that changes a request or a capacity.
pub data CapacityCall : Type 0 where
  operate : Operation → CapacityCall
  report : String → Capacity → CapacityCall

unfoldable pub perform_capacity_call : Db → CapacityCall → Db
perform_capacity_call db (operate o) = committed db (attempt db o)
perform_capacity_call db (report machine capacity) = update_provider_capacity machine capacity db

unfoldable pub perform_capacity_calls : Db → List CapacityCall → Db
perform_capacity_calls db [] = db
perform_capacity_calls db (c ∷ cs) = perform_capacity_calls (perform_capacity_call db c) cs

-- A completion names the machine and the offer of its request.
abbrev pub NamesOwn : Db → CapacityCall → Type 0
NamesOwn db (operate (complete p)) =
    (row : RequestRow)
    → db.requests p.request_id ≡ some row
    → (p.row.machine_id ≡ row.machine_id) × (p.row.offer_id ≡ row.offer_id)
NamesOwn db c = Unit

abbrev pub AllNameOwn : Db → List CapacityCall → Type 0
AllNameOwn db [] = Unit
AllNameOwn db (c ∷ cs) = NamesOwn db c × AllNameOwn (perform_capacity_call db c) cs

committed-IsSingle :
    (db : Db) (m : Result StoreError Db)
    → IsSingle db
    → ((db' : Db) → m ≡ ok db' → IsSingle db')
    → IsSingle (committed db m)
committed-IsSingle db (ok db') s keeps = keeps db' refl
committed-IsSingle db (err e) s keeps = s

call-IsSingle :
    (db : Db) (c : CapacityCall)
    → IsSingle db
    → NamesOwn db c
    → IsSingle (perform_capacity_call db c)
unfolding perform_capacity_call
call-IsSingle db (operate (reserve r)) s own =
    committed-IsSingle db (reserve_inference db r) s (λ db' h. reserve-IsSingle db r db' s h)
call-IsSingle db (operate (transition id next)) s own =
    committed-IsSingle db (transition_request db id next) s
      (λ db' h. transition-IsSingle db id next db' s h)
call-IsSingle db (operate (complete p)) s own =
    committed-IsSingle db (complete_inference db p) s (λ db' h. complete-IsSingle db p db' s own h)
call-IsSingle db (operate (abort id terminal)) s own =
    committed-IsSingle db (abort_inference db id terminal) s
      (λ db' h. abort-IsSingle db id terminal db' s h)
call-IsSingle db (report machine capacity) s own = update-IsSingle machine capacity db s

-- An offer of a machine runs one request at most: if the capacity of every offer and the requests
-- that it runs are together at most 1, each request that runs has one open reservation, no request
-- that is unknown has an open reservation, and no request is in the state created, all this stays so,
-- whatever reservations, transitions, completions, aborts and reports of capacity are made and
-- whichever of them fail, where a completion names the machine and the offer of its request.
pub perform-IsSingle :
    (db : Db) (cs : List CapacityCall)
    → IsSingle db
    → AllNameOwn db cs
    → IsSingle (perform_capacity_calls db cs)
unfolding perform_capacity_calls
perform-IsSingle db [] s own = s
perform-IsSingle db (c ∷ cs) s (here, rest) =
    perform-IsSingle (perform_capacity_call db c) cs (call-IsSingle db c s here) rest

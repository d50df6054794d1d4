-- ===== src/Examples/Reservations.antt =====
-- The store's operations at concrete inputs.
use mathlib.Core.Option
use myference.Prelude.{true, false, none, some, List, [], ◌∷◌, ◌≡◌, ◌⊎◌, refl, arith}
use myference.Prelude.Result.{Result, ok, err}
use myference.Protocol.Chunks.{set_key}
use myference.Store.Tables.{
  created, reserved, offered, accepted, streaming, failed, cancelled, invalid_transition,
  StoreError, SessionRow, RouteRow, RequestRow, OutboxRow, Db,
}
use myference.Store.Requests.{transitions}
use myference.Store.Requests.Lifecycle.{◌⟶*◌, stay, move}
use myference.Store.Requests.Outbox.{pending, claims, claims_drain}
use myference.Store.Inference.{InferenceReservation, locked, live_rows, abort_inference}
use myference.Store.Inference.Solvency.{IsSolvent}
use myference.Store.Inference.Aborts.{offered_abort_failed, abort_frees}
use myference.Store.Operations.{
  Operation, reserve, transition, abort, perform, IsLogged, perform-IsSolvent, perform-IsLogged,
}

abbrev one_session : SessionRow
one_session = record { account_id = "a1"; is_open = true; confirmed_balance = 100 }

abbrev one_route : RouteRow
one_route = record {
  price_version = 1;
  confirmed_bond = true;
  healthy = true;
  capacity = 1;
  offer_hash = "0x1";
  model_hash = "0x2";
  capability_hash = "0x3";
  input_per_million = "3000000";
  output_per_million = "7000000";
  compute_per_second = "1";
}

-- A session and an offer, and no requests.
abbrev quiet_db : Db
quiet_db = record {
  sessions = λ s. set_key (λ _. none) "s1" (some one_session) s;
  routes = λ m o. some one_route;
  requests = λ _. none;
  reservations = [];
  proposals = λ _. none;
  outbox = [];
}

abbrev one_reservation : InferenceReservation
one_reservation = record {
  request_id = "r1";
  session_id = "s1";
  account_id = "a1";
  machine_id = "m1";
  offer_id = "o1";
  price_version = 1;
  maximum_spend = 60;
  maximum_input_tokens = 2;
  maximum_output_tokens = 1;
  maximum_compute_milliseconds = 1500;
}

abbrev few_operations : List Operation
few_operations =
    reserve one_reservation
    ∷ transition "r1" accepted
    ∷ abort "r1" failed
    ∷ transition "r1" streaming
    ∷ []

quiet_db-IsSolvent : IsSolvent quiet_db
unfolding locked
quiet_db-IsSolvent s row h = omega arith

perform-IsSolvent_example : IsSolvent (perform quiet_db few_operations)
perform-IsSolvent_example = perform-IsSolvent quiet_db few_operations quiet_db-IsSolvent

perform-IsLogged_example : IsLogged (perform quiet_db few_operations)
perform-IsLogged_example = perform-IsLogged quiet_db few_operations (tt, λ r row h. ground arith)

-- A request that was reserved and offered.
abbrev offered_row : RequestRow
offered_row = record {
  session_id = "s1";
  state = offered;
  machine_id = "m1";
  offer_id = "o1";
  price_version = 1;
  maximum_spend = 15;
  maximum_input_tokens = 2;
  maximum_output_tokens = 1;
  maximum_compute_milliseconds = 1500;
  offer_hash = "0x1";
  model_hash = "0x2";
  capability_hash = "0x3";
}

abbrev offered_db : Db
offered_db = record quiet_db {
  requests = λ r. set_key (λ _. none) "r1" (some offered_row) r;
  reservations =
      record { request_id = "r1"; session_id = "s1"; amount = 15; released = false } ∷ [];
}

offered_abort_refused : abort_inference offered_db "r1" failed ≡ err invalid_transition
offered_abort_refused = offered_abort_failed offered_db "r1" offered_row refl refl

-- What the cancellation leaves.
abbrev or_quiet : Result StoreError Db → Db
or_quiet (ok db) = db
or_quiet (err _) = quiet_db

abbrev cancelled_db : Db
cancelled_db = or_quiet (abort_inference offered_db "r1" cancelled)

cancels : abort_inference offered_db "r1" cancelled ≡ ok cancelled_db
unfolding abort_inference transitions
cancels = refl

abort_frees_example :
    (Option.map (λ (q : RequestRow). q.state) (cancelled_db.requests "r1") ≡ some cancelled)
    × ((offered_row.state ≡ cancelled) ⊎ (live_rows "r1" cancelled_db.reservations ≡ 0))
abort_frees_example = abort_frees offered_db "r1" cancelled offered_row refl cancels

two_moves : created ⟶* offered
unfolding transitions
two_moves = move {t = reserved} refl (move refl stay)

abbrev three_events : List OutboxRow
three_events =
    record { aggregate_id = "r1"; from = created; to = reserved; published = true }
    ∷ record { aggregate_id = "r1"; from = reserved; to = offered; published = false }
    ∷ record { aggregate_id = "r2"; from = created; to = reserved; published = false }
    ∷ []

claims_drain_example : pending (claims 2 three_events).1 ≡ []
claims_drain_example = claims_drain 2 three_events (omega arith)

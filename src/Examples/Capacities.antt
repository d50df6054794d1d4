-- ===== src/Examples/Capacities.antt =====
-- The capacity of an offer at concrete inputs.
use myference.Prelude.{true, none, some, List, [], ◌∷◌, refl, arith}
use myference.Protocol.Chunks.{set_key}
use myference.Protocol.Messages.{Capacity}
use myference.Store.Tables.{accepted, cancelled, RouteRow, Db}
use myference.Store.Inference.{InferenceReservation, live_rows}
use myference.Store.Operations.{reserve, transition, abort}
use myference.Store.Capacity.{executing}
use myference.Store.Capacity.Single.{IsSingle}
use myference.Store.Capacity.Offers.{
  CapacityCall, operate, report, perform_capacity_calls, perform-IsSingle,
}

abbrev free_route : RouteRow
free_route = record {
  price_version = 1;
  confirmed_bond = true;
  healthy = true;
  capacity = 1;
  offer_hash = "0x1";
  model_hash = "0x2";
  capability_hash = "0x3";
  input_per_million = "3000000";
  output_per_million = "7000000";
  compute_per_second = "1";
}

abbrev free_db : Db
free_db = record {
  sessions = λ s.
      set_key (λ _. none) "s1"
        (some (record { account_id = "a1"; is_open = true; confirmed_balance = 100 })) s;
  routes = λ m o. some free_route;
  requests = λ _. none;
  reservations = [];
  proposals = λ _. none;
  outbox = [];
}

abbrev first_request : InferenceReservation
first_request = record {
  request_id = "r1";
  session_id = "s1";
  account_id = "a1";
  machine_id = "m1";
  offer_id = "o1";
  price_version = 1;
  maximum_spend = 60;
  maximum_input_tokens = 2;
  maximum_output_tokens = 1;
  maximum_compute_milliseconds = 1500;
}

abbrev one_offer : Capacity
one_offer = record {
  available = 4;
  offers =
      record {
        offer_id = "o1";
        model = "llama";
        price_version = 1;
        backend_kind = "";
        offer_hash = "";
        model_hash = "";
        capability_hash = "";
        capabilities = [];
        evidence_kind = "";
        evidence_digest = "";
        metering_mode = "";
      }
      ∷ [];
}

-- The machine reports its capacity while it runs a request, which is cancelled later on.
abbrev busy_calls : List CapacityCall
busy_calls =
    operate (reserve first_request)
    ∷ operate (transition "r1" accepted)
    ∷ report "m1" one_offer
    ∷ operate (abort "r1" cancelled)
    ∷ []

free_db-IsSingle : IsSingle free_db
unfolding executing live_rows
free_db-IsSingle = record {
  single = λ m o route h. ground arith;
  live = λ id row h e. ground arith;
  unknown = λ id h. refl;
  begun = λ id row h. ground arith;
}

perform-IsSingle_example : IsSingle (perform_capacity_calls free_db busy_calls)
perform-IsSingle_example =
    perform-IsSingle free_db busy_calls free_db-IsSingle (tt, (tt, (tt, (tt, tt))))

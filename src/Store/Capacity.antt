-- ===== src/Store/Capacity.antt =====
-- server/internal/store/inference.go: the capacity that an offer has left, and what makes an offer
-- eligible.
pub mod Single
pub mod Stops
pub mod Offers
use myference.Prelude.{
  ℕ, ◌+◌, ◌-◌, String, Bool, true, false, not, ◌&&◌, ◌||◌, Option, none, some, List, [], ◌∷◌,
  str_eq, is_empty, ltb, ◌==◌, if◌then◌else◌,
}
use myference.Prelude.Result.{Result, ok, err}
use myference.Protocol.Messages.{OfferCapacity, Capacity}
use myference.Router.{RouteError, valid_rate, sum_rates}
use myference.Store.Tables.{RouteRow, RequestRow, ReservationRow, Db}
use myference.Store.Inference.{is_executing}

-- Whether a request is one of the offer's that a machine executes.
abbrev pub runs : String → String → Option RequestRow → Bool
runs machine offer none = false
runs machine offer (some row) =
    str_eq row.machine_id machine && str_eq row.offer_id offer && is_executing row.state

-- SELECT count(*) FROM inference_reservations r JOIN requests q … WHERE … released_at IS NULL …
unfoldable pub executing : String → String → (String → Option RequestRow) → List ReservationRow → ℕ
executing machine offer requests [] = 0
executing machine offer requests (row ∷ rows) =
    (if not row.released && runs machine offer (requests row.request_id) then 1 else 0)
    + executing machine offer requests rows

abbrev pub on_route : (RouteRow → RouteRow) → Option RouteRow → Option RouteRow
on_route f none = none
on_route f (some route) = some (f route)

-- UPDATE provider_routing_state SET capacity=0 WHERE machine_id=…
abbrev pub stop_machine : String → Db → Db
stop_machine machine db = record db {
  routes = λ m o.
      on_route (λ route. if str_eq machine m then record route { capacity = 0 } else route)
        (db.routes m o);
}

abbrev pub offer_route : ℕ → ℕ → RouteRow → RouteRow
offer_route version capacity route =
    if route.price_version == version
    then record route { capacity = capacity; healthy = true }
    else route

-- The UPDATE of `UpdateProviderCapacity` for one offer, of which `available` may run.
unfoldable pub open_offer : String → String → ℕ → ℕ → Db → Db
unfolding executing
open_offer machine offer version available db =
    let capacity = available - executing machine offer db.requests db.reservations in
    record db {
      routes = λ m o.
          on_route
            (λ route.
              if str_eq machine m && str_eq offer o
              then offer_route version capacity route
              else route)
            (db.routes m o);
    }

abbrev pub available_of : ℕ → ℕ
available_of available = if available == 0 then 0 else 1

-- The loop of `UpdateProviderCapacity`.
unfoldable pub open_offers : String → ℕ → List OfferCapacity → Db → Db
unfolding open_offer
open_offers machine available [] db = db
open_offers machine available (offer ∷ offers) db =
    open_offers machine available offers
      (open_offer machine offer.offer_id offer.price_version (available_of available) db)

-- `UpdateProviderCapacity`
unfoldable pub update_provider_capacity : String → Capacity → Db → Db
unfolding open_offers
update_provider_capacity machine capacity db =
    open_offers machine capacity.available capacity.offers (stop_machine machine db)

-- `normalizedEvidence`
abbrev pub normalized_evidence : String → String → String → String → String × String × String
normalized_evidence kind digest metering model =
    let mode = if is_empty metering then "tokens_and_compute" else metering in
    if is_empty kind || is_empty digest
    then ("provider_claimed", model, mode)
    else (kind, digest, mode)

-- `runtimeEvidenceEligible`
abbrev pub runtime_evidence_eligible : String → ℕ → OfferCapacity → Bool
runtime_evidence_eligible previous_digest previous_version offered =
    is_empty previous_digest
    || str_eq previous_digest offered.model
    || str_eq previous_digest offered.evidence_digest
    || ltb previous_version offered.price_version

-- `meteringRatesEligible`
abbrev pub metering_rates_eligible : String → String → String → Bool
metering_rates_eligible mode input output =
    not (str_eq mode "compute_only") || (str_eq input "0" && str_eq output "0")

abbrev pub summed : Result RouteError String → Option String
summed (ok s) = some s
summed (err e) = none

-- `routingRates`: the sum of the rates, if they are eligible.
unfoldable pub routing_rates : String → String → String → String → Option String
routing_rates mode input output compute =
    if not (valid_rate input)
      || not (valid_rate output)
      || not (valid_rate compute)
      || not (metering_rates_eligible mode input output)
    then none
    else summed (sum_rates input output compute)

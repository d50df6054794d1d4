-- ===== src/Store/Tables.antt =====
-- The tables of the database that the store reads and writes, by the columns that it uses.
-- A query or an update is a function on them; a transaction that fails leaves them as they were.
-- Times are left out: of `released_at` and `published_at` it counts whether they are set.
use myference.Prelude.{
  ℕ, String, Bool, false, ◌&&◌, Option, none, some, List, [], ◌∷◌, ◌++◌, str_eq, if◌then◌else◌,
}
use myference.Protocol.Chunks.{set_key}

-- `requests.state`, by its constraint.
pub data Status : Type 0 where
  created reserved offered accepted streaming completed signed submitted settled : Status
  rejected expired cancelled failed : Status

pub data StoreError : Type 0 where
  no_rows constraint invalid_transition no_outbox_events : StoreError
  insufficient_balance ineligible_route usage_limit_exceeded : StoreError

pub record SessionRow : Type 0 where
  pub account_id : String
  pub is_open : Bool
  pub confirmed_balance : ℕ

-- The rates are the columns' texts.
pub record RouteRow : Type 0 where
  pub price_version : ℕ
  pub confirmed_bond : Bool
  pub healthy : Bool
  pub capacity : ℕ
  pub offer_hash : String
  pub model_hash : String
  pub capability_hash : String
  pub input_per_million : String
  pub output_per_million : String
  pub compute_per_second : String

pub record RequestRow : Type 0 where
  pub session_id : String
  pub state : Status
  pub machine_id : String
  pub offer_id : String
  pub price_version : ℕ
  pub maximum_spend : ℕ
  pub maximum_input_tokens : ℕ
  pub maximum_output_tokens : ℕ
  pub maximum_compute_milliseconds : ℕ
  pub offer_hash : String
  pub model_hash : String
  pub capability_hash : String

pub record ReservationRow : Type 0 where
  pub request_id : String
  pub session_id : String
  pub amount : ℕ
  pub released : Bool

-- An event of a request; its type is "request." and the state that it names.
pub record OutboxRow : Type 0 where
  pub aggregate_id : String
  pub from : Status
  pub to : Status
  pub published : Bool

pub record ProposalRow : Type 0 where
  pub session_id : String
  pub machine_id : String
  pub offer_id : String
  pub model : String
  pub price_version : ℕ
  pub input_tokens : ℕ
  pub output_tokens : ℕ
  pub compute_milliseconds : ℕ

-- The outbox is in the order of its IDs.
pub record Db : Type 0 where
  pub sessions : String → Option SessionRow
  pub routes : String → String → Option RouteRow
  pub requests : String → Option RequestRow
  pub reservations : List ReservationRow
  pub proposals : String → Option ProposalRow
  pub outbox : List OutboxRow

-- UPDATE requests SET state=s WHERE id=id
abbrev pub set_state : String → RequestRow → Status → Db → Db
set_state id row s db = record db {
  requests = set_key db.requests id (some (record row { state = s }));
}

-- INSERT INTO outbox
abbrev pub emit : String → Status → Status → Db → Db
emit id from to db = record db {
  outbox = db.outbox ++ record { aggregate_id = id; from = from; to = to; published = false } ∷ [];
}

-- UPDATE provider_routing_state SET capacity=… WHERE machine_id=m AND offer_id=o
abbrev pub set_capacity : String → String → (ℕ → ℕ) → Db → Db
set_capacity m o f db = record db {
  routes = λ m' o'.
      if str_eq m m' && str_eq o o'
      then elim (db.routes m' o') [
        | none ↦ none
        | some route ↦ some (record route { capacity = f route.capacity })
      ]
      else db.routes m' o';
}

-- ===== src/Store/Inference.antt =====
-- server/internal/store/inference.go: the reservation of funds for a request, its completion and
-- its abort.
pub mod Solvency
pub mod Aborts
use myference.Prelude.{
  ℕ, ◌+◌, ◌-◌, String, Bool, true, false, not, ◌&&◌, ◌||◌, Option, none, some, List, [], ◌∷◌, ◌++◌,
  str_eq, is_empty, any, ltb, leb, ◌==◌, if◌then◌else◌,
}
use myference.Prelude.Result.{Result, ok, err, ◌>>=◌, ◌>>◌, fail_if}
use myference.Protocol.Chunks.{set_key}
use myference.Router.{RouteError, Candidate, worst_case_cost}
use myference.Store.Tables.{
  Status, created, reserved, offered, accepted, streaming, completed, cancelled, failed, StoreError,
  no_rows, constraint, invalid_transition, insufficient_balance, ineligible_route,
  usage_limit_exceeded, SessionRow, RouteRow, RequestRow, ReservationRow, ProposalRow, Db,
  set_state, emit, set_capacity,
}
use myference.Store.Requests.{transitions}

pub record InferenceReservation : Type 0 where
  pub request_id : String
  pub session_id : String
  pub account_id : String
  pub machine_id : String
  pub offer_id : String
  pub price_version : ℕ
  pub maximum_spend : ℕ
  pub maximum_input_tokens : ℕ
  pub maximum_output_tokens : ℕ
  pub maximum_compute_milliseconds : ℕ

-- SELECT COALESCE(sum(amount),0) … WHERE session_id=s AND released_at IS NULL
unfoldable pub locked : String → List ReservationRow → ℕ
locked s [] = 0
locked s (row ∷ rows) =
    (if str_eq row.session_id s && not row.released then row.amount else 0) + locked s rows

-- The row that the query for a routable offer finds.
abbrev pub routable : Option RouteRow → ℕ → Option RouteRow
routable none version = none
routable (some route) version =
    if route.price_version == version
      && route.confirmed_bond
      && route.healthy
      && ltb 0 route.capacity
    then some route
    else none

abbrev pub or_fail {ℓ} : {A : Type ℓ} {E : Type ℓ} → Option A → E → Result E A
or_fail none e = err e
or_fail (some a) e = ok a

-- The candidate whose worst case is computed: it has the route's rates and nothing else.
abbrev pub rates_of : RouteRow → Candidate
rates_of route = record {
  machine_id = "";
  offer_id = "";
  model = "";
  capabilities = [];
  confirmed_bond = false;
  healthy = false;
  capacity = 0;
  maximum_cost = 0;
  price_version = 0;
  latency_milliseconds = 0;
  success_basis_points = 0;
  reputation = 0;
  input_per_million = route.input_per_million;
  output_per_million = route.output_per_million;
  compute_per_second = route.compute_per_second;
}

abbrev pub no_route : Result RouteError ℕ → Result StoreError ℕ
no_route (ok n) = ok n
no_route (err e) = err ineligible_route

abbrev pub is_some {ℓ} : {A : Type ℓ} → Option A → Bool
is_some none = false
is_some (some _) = true

-- The row of the request, in a state.
abbrev pub request_row : InferenceReservation → RouteRow → ℕ → Status → RequestRow
request_row r route cost state = record {
  session_id = r.session_id;
  state = state;
  machine_id = r.machine_id;
  offer_id = r.offer_id;
  price_version = r.price_version;
  maximum_spend = cost;
  maximum_input_tokens = r.maximum_input_tokens;
  maximum_output_tokens = r.maximum_output_tokens;
  maximum_compute_milliseconds = r.maximum_compute_milliseconds;
  offer_hash = route.offer_hash;
  model_hash = route.model_hash;
  capability_hash = route.capability_hash;
}

-- The writes of `ReserveInference`, in order.
abbrev pub write_reservation : Db → InferenceReservation → RouteRow → ℕ → Db
write_reservation db r route cost =
    let id = r.request_id in
    let row = request_row r route cost created in
    let taken = set_capacity r.machine_id r.offer_id (λ n. n - 1) db in
    let inserted = record taken {
      requests = set_key taken.requests id (some row);
      reservations =
          record { request_id = id; session_id = r.session_id; amount = cost; released = false }
          ∷ taken.reservations;
    } in
    emit id reserved offered
      (set_state id row offered (emit id created reserved (set_state id row reserved inserted)))

-- `ReserveInference`
unfoldable pub reserve_inference : Db → InferenceReservation → Result StoreError Db
unfolding locked
reserve_inference db r = do
  fail_if
      (r.maximum_input_tokens == 0
        || r.maximum_output_tokens == 0
        || r.maximum_compute_milliseconds == 0)
      ineligible_route
  session ← or_fail (db.sessions r.session_id) no_rows
  fail_if (not (str_eq session.account_id r.account_id) || not session.is_open) insufficient_balance
  let reserved_now = locked r.session_id db.reservations
  fail_if (ltb session.confirmed_balance reserved_now) insufficient_balance
  route ← or_fail (routable (db.routes r.machine_id r.offer_id) r.price_version) ineligible_route
  worst_case ← no_route (
      worst_case_cost (rates_of route) r.maximum_input_tokens r.maximum_output_tokens
        r.maximum_compute_milliseconds)
  fail_if (worst_case == 0 || ltb r.maximum_spend worst_case) ineligible_route
  fail_if (ltb (session.confirmed_balance - reserved_now) worst_case) insufficient_balance
  fail_if (is_empty route.offer_hash || is_empty route.model_hash || is_empty route.capability_hash)
      ineligible_route
  fail_if (is_some (db.requests r.request_id)) constraint
  ok (write_reservation db r route worst_case)

-- What the broker records of a finished request.
pub record ReceiptProposal : Type 0 where
  pub request_id : String
  pub row : ProposalRow

-- The guard of the first UPDATE of `CompleteInference`.
abbrev pub within_limits : ProposalRow → RequestRow → Bool
within_limits p row =
    leb p.input_tokens row.maximum_input_tokens
    && leb p.output_tokens row.maximum_output_tokens
    && leb p.compute_milliseconds row.maximum_compute_milliseconds

abbrev pub is_streaming : Status → Bool
is_streaming streaming = true
is_streaming _ = false

abbrev pub completes : ProposalRow → Option RequestRow → Option RequestRow
completes p none = none
completes p (some row) =
    if str_eq row.session_id p.session_id && is_streaming row.state && within_limits p row
    then some row
    else none

abbrev pub exceeds : ProposalRow → Option RequestRow → Bool
exceeds p none = false
exceeds p (some row) = is_streaming row.state && not (within_limits p row)

-- The writes of `CompleteInference` to the row that its UPDATE found.
abbrev pub write_completion : Db → ReceiptProposal → RequestRow → Db
write_completion db proposal row =
    let id = proposal.request_id in
    let p = proposal.row in
    let updated = set_state id row completed db in
    let inserted = record updated { proposals = set_key updated.proposals id (some p) } in
    emit id streaming completed (set_capacity p.machine_id p.offer_id (λ n. n + 1) inserted)

-- `CompleteInference`
unfoldable pub complete_inference : Db → ReceiptProposal → Result StoreError Db
complete_inference db proposal =
    let found = db.requests proposal.request_id in
    elim (completes proposal.row found) [
      | some row ↦
          if is_some (db.proposals proposal.request_id)
          then err constraint
          else ok (write_completion db proposal row)
      | none ↦
          if is_some (db.proposals proposal.request_id)
          then ok db
          else if exceeds proposal.row found
          then err usage_limit_exceeded
          else err invalid_transition
    ]

abbrev pub is_live : String → ReservationRow → Bool
is_live id row = str_eq row.request_id id && not row.released

-- UPDATE inference_reservations SET released_at=now() WHERE request_id=id AND released_at IS NULL
unfoldable pub release : String → List ReservationRow → List ReservationRow
release id [] = []
release id (row ∷ rows) =
    (if is_live id row then record row { released = true } else row) ∷ release id rows

-- The rows that `release` changes.
unfoldable pub live_rows : String → List ReservationRow → ℕ
live_rows id [] = 0
live_rows id (row ∷ rows) = (if is_live id row then 1 else 0) + live_rows id rows

abbrev pub is_executing : Status → Bool
is_executing reserved = true
is_executing offered = true
is_executing accepted = true
is_executing streaming = true
is_executing _ = false

abbrev pub same_status : Status → Status → Bool
same_status failed failed = true
same_status cancelled cancelled = true
same_status _ _ = false

abbrev pub is_abort : Status → Bool
is_abort failed = true
is_abort cancelled = true
is_abort _ = false

-- The writes of `AbortInference`.
unfoldable pub write_abort : Db → String → Status → RequestRow → Db
unfolding release live_rows
write_abort db id terminal row =
    let stopped = set_state id row terminal db in
    let freed = record stopped { reservations = release id stopped.reservations } in
    let restored =
      if live_rows id stopped.reservations == 1 && is_executing row.state
      then set_capacity row.machine_id row.offer_id (λ n. n + 1) freed
      else freed in
    emit id row.state terminal restored

abort_row : Db → String → Status → Option RequestRow → Result StoreError Db
unfolding write_abort
abort_row db id terminal none = err no_rows
abort_row db id terminal (some row) =
    if same_status row.state terminal
    then ok db
    else if not (transitions row.state terminal)
    then err invalid_transition
    else ok (write_abort db id terminal row)

-- `AbortInference`
unfoldable pub abort_inference : Db → String → Status → Result StoreError Db
unfolding abort_row
abort_inference db id terminal =
    if not (is_abort terminal)
    then err invalid_transition
    else abort_row db id terminal (db.requests id)

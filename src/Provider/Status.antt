-- ===== src/Provider/Status.antt =====
-- cli/internal/provider/daemon.go and status.go: the status that the daemon keeps of its requests.
-- Each change of the source also sets `UpdatedAt`; here `updated_at` is set to the time that is given.
pub mod Calls
pub mod Recent
pub mod Earnings
use mathlib.Core.Option
use myference.Prelude.{
  ℕ, ◌+◌, ◌-◌, ◌*◌, ◌/◌, String, Bool, true, false, not, ◌||◌, Option, none, some, List, [], ◌∷◌,
  leb, ◌==◌, str_eq, is_empty, if◌then◌else◌, map,
}
use myference.Prelude.Words.{u64}
use myference.Prelude.Int.{ℤ, pos, negsuc, ◌+ℤ◌, sub_nat}
use myference.Prelude.Decimal.{set_string, show_int}
use myference.Protocol.Receipt.{Receipt}
use myference.Protocol.Messages.{ReceiptProposal, OfferCapacity}
use myference.Protocol.Chunks.{set_key}

pub record OfferStatus : Type 0 where
  pub offer_id : String
  pub model : String
  pub healthy : Bool
  pub error : String

pub record RequestStatus : Type 0 where
  pub request_id : String
  pub offer_id : String
  pub model : String
  pub state : String
  pub input_tokens : ℕ
  pub output_tokens : ℕ
  pub compute_milliseconds : ℕ
  pub earnings_wei : String
  pub error : String
  pub started_at : ℕ
  pub completed_at : ℕ

pub record StatusSnapshot : Type 0 where
  pub connected : Bool
  pub started_at : ℕ
  pub updated_at : ℕ
  pub requests : ℕ
  pub input_tokens : ℕ
  pub output_tokens : ℕ
  pub compute_milliseconds : ℕ
  pub run_earnings_wei : String
  pub recent_requests : List RequestStatus
  pub offers : List OfferStatus

-- The part of `Daemon` that `statusMu` guards.
pub record DaemonStatus : Type 0 where
  pub status : StatusSnapshot
  pub earnings_recorded : String → Bool

-- `backend.Usage`
pub record Usage : Type 0 where
  pub input_tokens : ℕ
  pub output_tokens : ℕ
  pub compute_milliseconds : ℕ

abbrev offer_status : OfferCapacity → OfferStatus
offer_status o = record { offer_id = o.offer_id; model = o.model; healthy = true; error = "" }

-- The part of `NewDaemon` that makes the status, at time `now`.
unfoldable pub new_status : ℕ → List OfferCapacity → DaemonStatus
new_status now offers = record {
  status = record {
    connected = false;
    started_at = now;
    updated_at = now;
    requests = 0;
    input_tokens = 0;
    output_tokens = 0;
    compute_milliseconds = 0;
    run_earnings_wei = "";
    recent_requests = [];
    offers = map offer_status offers;
  };
  earnings_recorded = λ _. false;
}

-- A `RequestStatus` with only its id.
abbrev pub blank_request : String → RequestStatus
blank_request id = record {
  request_id = id;
  offer_id = "";
  model = "";
  state = "";
  input_tokens = 0;
  output_tokens = 0;
  compute_milliseconds = 0;
  earnings_wei = "";
  error = "";
  started_at = 0;
  completed_at = 0;
}

-- The loop of `updateRequestLocked`: the list with the first such request updated, if there is one.
unfoldable pub update_first :
    String → (RequestStatus → RequestStatus) → List RequestStatus → Option (List RequestStatus)
update_first id update [] = none
update_first id update (r ∷ rs) =
    let rest = update_first id update rs in
    if str_eq r.request_id id then some (update r ∷ rs) else Option.map (λ us. r ∷ us) rest

-- `updateRequestLocked`
unfoldable pub update_request :
    String → (RequestStatus → RequestStatus) → List RequestStatus → List RequestStatus
unfolding update_first
update_request id update rs = if is_empty id then rs else elim (update_first id update rs) [
  | some updated ↦ updated
  | none ↦ update (blank_request id) ∷ rs
]

abbrev pub recent_limit : ℕ
recent_limit = 20

abbrev pub is_active : RequestStatus → Bool
is_active r = str_eq r.state "active" || str_eq r.state "settling"

-- The loop of `trimRequestsLocked`, after `terminal` requests that are not active.
unfoldable pub trim_after : ℕ → List RequestStatus → List RequestStatus
trim_after terminal [] = []
trim_after terminal (r ∷ rs) =
    let kept = trim_after terminal rs in
    let counted = trim_after (terminal + 1) rs in
    if is_active r then r ∷ kept else if leb recent_limit terminal then kept else r ∷ counted

-- `trimRequestsLocked`
unfoldable pub trim_requests : List RequestStatus → List RequestStatus
unfolding trim_after
trim_requests rs = trim_after 0 rs

-- `setOfferHealthLocked`
unfoldable pub set_offer_health : String → Bool → String → List OfferStatus → List OfferStatus
set_offer_health id healthy message [] = []
set_offer_health id healthy message (o ∷ os) =
    let rest = set_offer_health id healthy message os in
    if str_eq o.offer_id id then record o { healthy = healthy; error = message } ∷ os else o ∷ rest

-- `recordRequestStarted`
unfoldable pub record_started : ℕ → String → String → String → DaemonStatus → DaemonStatus
unfolding trim_requests
record_started now request_id offer_id model d =
    let started : RequestStatus = record (blank_request request_id) {
      offer_id = offer_id;
      model = model;
      state = "active";
      started_at = now;
    } in
    record d {
      status = record d.status {
        recent_requests = trim_requests (started ∷ d.status.recent_requests);
        updated_at = now;
      };
    }

abbrev pub settling : Usage → RequestStatus → RequestStatus
settling usage r = record r {
  state = "settling";
  input_tokens = usage.input_tokens;
  output_tokens = usage.output_tokens;
  compute_milliseconds = usage.compute_milliseconds;
}

-- `recordCompletion`
unfoldable pub record_completion : ℕ → String → String → Usage → DaemonStatus → DaemonStatus
unfolding update_request set_offer_health
record_completion now request_id offer_id usage d = record d {
  status = record d.status {
    requests = u64 (d.status.requests + 1);
    input_tokens = u64 (d.status.input_tokens + usage.input_tokens);
    output_tokens = u64 (d.status.output_tokens + usage.output_tokens);
    compute_milliseconds = u64 (d.status.compute_milliseconds + usage.compute_milliseconds);
    recent_requests = update_request request_id (settling usage) d.status.recent_requests;
    offers = set_offer_health offer_id true "" d.status.offers;
    updated_at = now;
  };
}

abbrev pub failed : ℕ → String → RequestStatus → RequestStatus
failed now message r = record r { state = "failed"; error = message; completed_at = now }

-- `recordRequestFailed`
unfoldable pub record_failed : ℕ → String → String → DaemonStatus → DaemonStatus
unfolding update_request trim_requests
record_failed now request_id message d = record d {
  status = record d.status {
    recent_requests =
        trim_requests (update_request request_id (failed now message) d.status.recent_requests);
    updated_at = now;
  };
}

-- The receipt's total without the fee.
unfoldable pub earnings_of : Receipt → ℤ
earnings_of r = sub_nat r.total_charge (r.total_charge * r.fee_basis_points / 10000)

abbrev pub completed : Receipt → RequestStatus → RequestStatus
completed receipt r = record r {
  state = "completed";
  input_tokens = receipt.input_tokens;
  output_tokens = receipt.output_tokens;
  compute_milliseconds = receipt.compute_milliseconds;
  earnings_wei = show_int (earnings_of receipt);
  completed_at = receipt.completed_at;
}

abbrev pub or_zero : Option ℤ → ℤ
or_zero none = pos 0
or_zero (some z) = z

-- The part of `recordReceipt` that adds to the earnings of the run.
unfoldable pub credit : String → ℤ → DaemonStatus → DaemonStatus
credit request_id earnings d = if d.earnings_recorded request_id then d else record d {
  status = record d.status {
    run_earnings_wei = show_int (or_zero (set_string d.status.run_earnings_wei) +ℤ earnings);
  };
  earnings_recorded = set_key d.earnings_recorded request_id true;
}

-- `recordReceipt`
unfoldable pub record_receipt : ℕ → ReceiptProposal → DaemonStatus → DaemonStatus
unfolding credit update_request trim_requests
record_receipt now p d =
    let credited = credit p.request_id (earnings_of p.receipt) d in
    record credited {
      status = record credited.status {
        recent_requests =
            trim_requests
              (update_request p.request_id (completed p.receipt) d.status.recent_requests);
        updated_at = now;
      };
    }

-- `recordOfferHealth`
unfoldable pub record_offer_health : ℕ → String → Bool → String → DaemonStatus → DaemonStatus
unfolding set_offer_health
record_offer_health now offer_id healthy message d = record d {
  status = record d.status {
    offers = set_offer_health offer_id healthy message d.status.offers;
    updated_at = now;
  };
}

-- `setConnected`
unfoldable pub set_connected : ℕ → Bool → DaemonStatus → DaemonStatus
set_connected now connected d = record d {
  status = record d.status { connected = connected; updated_at = now };
}

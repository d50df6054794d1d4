-- ===== src/Examples/Streams.antt =====
-- Chunks, leases and the daemon's status at concrete inputs.
use myference.Prelude.{true, false, none, some, List, [], ◌∷◌, ◌≡◌, refl}
use myference.Protocol.Messages.{OutputChunk, ReceiptProposal}
use myference.Protocol.Receipt.{Receipt}
use myference.Protocol.Receipt
use myference.Protocol.Chunks.{new_chunk_tracker}
use myference.Protocol.Chunks.Streams.{admitted, of_request, IsStream, admitted-IsStream}
use myference.Provider.Requests.{
  RequestState, RequestEntry, Call, accept_call, cancel_call, record_call, new_request_state,
  accept,
}
use myference.Provider.Requests.Relay.{emitted, admitted-emitted}
use myference.Provider.Status.{RequestStatus, blank_request}
use myference.Provider.Status.Calls.{StatusCall, receipt_call}

abbrev pub first_chunk : OutputChunk
first_chunk = record {
  request_id = "r1";
  sequence = 1;
  output = "hi";
  done = false;
  input_tokens = 0;
  output_tokens = 0;
  compute_milliseconds = 0;
  error_code = "";
}

abbrev second_chunk : OutputChunk
second_chunk = record first_chunk { sequence = 2 }

abbrev twice_first : List OutputChunk
twice_first = first_chunk ∷ first_chunk ∷ second_chunk ∷ []

admitted-IsStream_example : IsStream 0 (of_request "r1" (admitted new_chunk_tracker twice_first))
admitted-IsStream_example = admitted-IsStream "r1" twice_first

abbrev few_calls : List Call
few_calls =
    accept_call "r1"
    ∷ record_call first_chunk
    ∷ record_call first_chunk
    ∷ record_call second_chunk
    ∷ cancel_call "r1"
    ∷ accept_call "r1"
    ∷ []

admitted-emitted_example :
    admitted new_chunk_tracker (emitted new_request_state few_calls)
    ≡ emitted new_request_state few_calls
admitted-emitted_example = admitted-emitted few_calls

abbrev ended_entry : RequestEntry
ended_entry = record { accepted = true; sequence = 1; terminal = true; output_seen = true }

abbrev ended_state : RequestState
ended_state r = some ended_entry

abbrev leased_state : RequestState
leased_state = (accept new_request_state "r1").0

abbrev settled_receipt : Receipt
settled_receipt = record {
  request_id = 1;
  session_id = 2;
  customer = 3;
  provider = 4;
  settlement_signer = 5;
  offer_id = 6;
  price_version = 1;
  model_hash = 7;
  capability_hash = 8;
  input_tokens = 10;
  output_tokens = 20;
  compute_milliseconds = 30;
  maximum_charge = 100;
  total_charge = 100;
  fee_basis_points = 1500;
  fee_version = 1;
  status = 1;
  completed_at = 9;
  input_hash = 10;
  output_hash = 11;
  nonce = 1;
}

abbrev one_proposal : ReceiptProposal
one_proposal = record { request_id = "r1"; chain_id = 1; contract = 1; receipt = settled_receipt }

-- The same receipt twice.
abbrev repeated : List StatusCall
repeated = receipt_call 1 one_proposal ∷ receipt_call 2 one_proposal ∷ []

settled_receipt_valid : Receipt.validate settled_receipt ≡ none
unfolding Receipt.validate
settled_receipt_valid = refl

abbrev some_requests : List RequestStatus
some_requests =
    record (blank_request "r1") { state = "failed" }
    ∷ record (blank_request "r2") { state = "active" }
    ∷ []

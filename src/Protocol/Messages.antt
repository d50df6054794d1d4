-- ===== src/Protocol/Messages.antt =====
-- protocol/v1/messages.go: the messages of the relay and what each must satisfy.
use Prim.Native.String.{compare, len}
use text.Mathlib.Text.{is_lt, starts_with}
use myference.Prelude.{
  ℕ, ◌+◌, String, Bool, true, false, not, ◌&&◌, ◌||◌, Option, none, some, List, [], ◌∷◌, ◌==◌,
  str_eq, is_empty, is_blank, length, if◌then◌else◌,
}
use myference.Protocol.Receipt
use myference.Protocol.Receipt.{Receipt, ReceiptError, Address, is_zero}

-- `receipt` is an error of the receipt inside a proposal.
pub data MessageError : Type 0 where
  invalid_message message_too_large unsupported_version chunk_sequence : MessageError
  receipt : ReceiptError → MessageError

abbrev pub protocol_version : ℕ
protocol_version = 1

abbrev pub message_hello : String
message_hello = "hello"

abbrev pub message_capacity : String
message_capacity = "capacity"

abbrev pub message_job_offer : String
message_job_offer = "job_offer"

abbrev pub message_job_accept : String
message_job_accept = "job_accept"

abbrev pub message_output_chunk : String
message_output_chunk = "output_chunk"

abbrev pub message_cancel : String
message_cancel = "cancel"

abbrev pub message_receipt_proposal : String
message_receipt_proposal = "receipt_proposal"

abbrev pub message_receipt_signature : String
message_receipt_signature = "receipt_signature"

pub known_message_type : String → Bool
known_message_type t =
    str_eq t message_hello
    || str_eq t message_capacity
    || str_eq t message_job_offer
    || str_eq t message_job_accept
    || str_eq t message_output_chunk
    || str_eq t message_cancel
    || str_eq t message_receipt_proposal
    || str_eq t message_receipt_signature

-- `if c { return ErrInvalidMessage }; return nil`
abbrev pub invalid_if : Bool → Option MessageError
invalid_if true = some invalid_message
invalid_if false = none

pub record Hello : Type 0 where
  pub machine_id : String

unfoldable pub validate_hello : Hello → Option MessageError
validate_hello m = invalid_if (is_blank m.machine_id)

pub record OfferCapacity : Type 0 where
  pub offer_id : String
  pub model : String
  pub price_version : ℕ
  pub backend_kind : String
  pub offer_hash : String
  pub model_hash : String
  pub capability_hash : String
  pub capabilities : List String
  pub evidence_kind : String
  pub evidence_digest : String
  pub metering_mode : String

-- The loop over the three hashes: `none` if one is malformed, else how many are given.
pub count_hashes : ℕ → List String → Option ℕ
count_hashes provided [] = some provided
count_hashes provided (hash ∷ hashes) =
    if is_empty hash
    then count_hashes provided hashes
    else if not (len hash == 66) || not (starts_with hash "0x")
    then none
    else count_hashes (provided + 1) hashes

-- The loop over the capabilities: known ones, in strictly increasing order.
pub capabilities_ordered : String → List String → Bool
capabilities_ordered previous [] = true
capabilities_ordered previous (capability ∷ rest) =
    if not (str_eq capability "stream" || str_eq capability "text" || str_eq capability "workspace")
      || not (is_lt (compare previous capability))
    then false
    else capabilities_ordered capability rest

abbrev pub known_evidence : String → Bool
known_evidence kind =
    str_eq kind "provider_claimed"
    || str_eq kind "ollama_digest"
    || str_eq kind "upstream_model"
    || str_eq kind "runtime_image"

abbrev pub known_metering : String → Bool
known_metering mode = str_eq mode "tokens_and_compute" || str_eq mode "compute_only"

-- The last test of `OfferCapacity.Validate`.
pub evidence_invalid : OfferCapacity → Bool
evidence_invalid o =
    if not (is_empty o.evidence_kind)
      || not (is_empty o.evidence_digest)
      || not (is_empty o.metering_mode)
    then is_empty o.evidence_digest
      || not (known_evidence o.evidence_kind)
      || not (known_metering o.metering_mode)
    else false

unfoldable pub validate_offer_capacity : OfferCapacity → Option MessageError
validate_offer_capacity o =
    if is_blank o.offer_id || is_blank o.model || o.price_version == 0
    then some invalid_message
    else elim (count_hashes 0 (o.offer_hash ∷ o.model_hash ∷ o.capability_hash ∷ [])) [
      | none ↦ some invalid_message
      | some provided ↦
          if not (provided == 0) && (not (provided == 3) || is_blank o.backend_kind)
          then some invalid_message
          else if not (capabilities_ordered "" o.capabilities)
          then some invalid_message
          else if not (provided == 0) && length o.capabilities == 0
          then some invalid_message
          else invalid_if (evidence_invalid o)
    ]

pub record Capacity : Type 0 where
  pub available : ℕ
  pub offers : List OfferCapacity

pub validate_offers : List OfferCapacity → Option MessageError
validate_offers [] = none
validate_offers (o ∷ os) = elim (validate_offer_capacity o) [
  | some e ↦ some e
  | none ↦ validate_offers os
]

unfoldable pub validate_capacity : Capacity → Option MessageError
validate_capacity m = validate_offers m.offers

pub record JobAccept : Type 0 where
  pub request_id : String

unfoldable pub validate_job_accept : JobAccept → Option MessageError
validate_job_accept m = invalid_if (is_blank m.request_id)

pub record OutputChunk : Type 0 where
  pub request_id : String
  pub sequence : ℕ
  pub output : String
  pub done : Bool
  pub input_tokens : ℕ
  pub output_tokens : ℕ
  pub compute_milliseconds : ℕ
  pub error_code : String

unfoldable pub validate_output_chunk : OutputChunk → Option MessageError
validate_output_chunk m =
    if is_blank m.request_id
      || m.sequence == 0
      || (is_empty m.output && not m.done)
      || (not (is_empty m.error_code)
          && (not m.done
              || not (is_empty m.output)
              || not (m.input_tokens == 0)
              || not (m.output_tokens == 0)
              || not (m.compute_milliseconds == 0)))
    then some invalid_message
    else invalid_if (
        not (is_empty m.error_code)
        && not (str_eq m.error_code "backend_failed")
        && not (str_eq m.error_code "cancelled"))

pub record Cancel : Type 0 where
  pub request_id : String
  pub reason : String

unfoldable pub validate_cancel : Cancel → Option MessageError
validate_cancel m = invalid_if (is_blank m.request_id || is_blank m.reason)

pub record ReceiptProposal : Type 0 where
  pub request_id : String
  pub chain_id : ℕ
  pub contract : Address
  pub receipt : Receipt

abbrev pub receipt_error : Option ReceiptError → Option MessageError
receipt_error none = none
receipt_error (some e) = some (receipt e)

unfoldable pub validate_receipt_proposal : ReceiptProposal → Option MessageError
validate_receipt_proposal m =
    if is_blank m.request_id || m.chain_id == 0 || is_zero m.contract
    then some invalid_message
    else receipt_error (Receipt.validate m.receipt)

-- `signature` holds bytes.
pub record ReceiptSignature : Type 0 where
  pub request_id : String
  pub signer : Address
  pub signature : List ℕ

unfoldable pub validate_receipt_signature : ReceiptSignature → Option MessageError
validate_receipt_signature m =
    invalid_if (is_blank m.request_id || is_zero m.signer || not (length m.signature == 65))

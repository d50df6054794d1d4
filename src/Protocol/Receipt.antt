-- ===== src/Protocol/Receipt.antt =====
-- protocol/v1/receipt.go: the usage receipt that is settled on the chain.
use myference.Prelude.{ℕ, Bool, ◌||◌, not, Option, none, some, ltb, ◌==◌, if◌then◌else◌}

-- A `[32]byte` and a `[20]byte`, as the number that its bytes spell. The zero value is 0.
abbrev pub Hash : Type 0
Hash = ℕ

abbrev pub Address : Type 0
Address = ℕ

abbrev pub is_zero : ℕ → Bool
is_zero h = h == 0

pub data ReceiptError : Type 0 where
  invalid_receipt maximum_exceeded : ReceiptError

abbrev pub maximum_fee_basis_points : ℕ
maximum_fee_basis_points = 1500

abbrev pub receipt_status_completed : ℕ
receipt_status_completed = 1

pub record Receipt : Type 0 where
  pub request_id : Hash
  pub session_id : Hash
  pub customer : Address
  pub provider : Address
  pub settlement_signer : Address
  pub offer_id : Hash
  pub price_version : ℕ
  pub model_hash : Hash
  pub capability_hash : Hash
  pub input_tokens : ℕ
  pub output_tokens : ℕ
  pub compute_milliseconds : ℕ
  pub maximum_charge : ℕ
  pub total_charge : ℕ
  pub fee_basis_points : ℕ
  pub fee_version : ℕ
  pub status : ℕ
  pub completed_at : ℕ
  pub input_hash : Hash
  pub output_hash : Hash
  pub nonce : ℕ

-- `Validate`; `none` is the error nil.
unfoldable pub validate : Receipt → Option ReceiptError
validate r =
    if is_zero r.request_id
      || is_zero r.session_id
      || is_zero r.customer
      || is_zero r.provider
      || is_zero r.settlement_signer
      || is_zero r.offer_id
      || is_zero r.model_hash
      || is_zero r.capability_hash
      || is_zero r.input_hash
      || is_zero r.output_hash
    then some invalid_receipt
    else if r.price_version == 0
        || r.fee_version == 0
        || not (r.status == receipt_status_completed)
        || r.completed_at == 0
        || r.nonce == 0
        || ltb maximum_fee_basis_points r.fee_basis_points
    then some invalid_receipt
    else if ltb r.maximum_charge r.total_charge
    then some maximum_exceeded
    else none

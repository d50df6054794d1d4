-- ===== src/Store/Prepare.antt =====
-- server/internal/store/receipt.go: `PrepareReceipt`, from the rows that its queries find.
use myference.Prelude.{ℕ, String, not, ◌||◌, List, any, ltb}
use myference.Prelude.Words.{u64_mod}
use myference.Prelude.Result.{Result, ok, ◌>>=◌, ◌>>◌, fail_if}
use myference.Protocol.Receipt.{Hash, Receipt, is_zero, receipt_status_completed, validate}
use myference.Store.ExactCharge.{exact_charge}
use myference.Store.Inference.{or_fail}
use myference.Store.Receipts.{
  not_found, invalid_receipt, maximum_exceeded, PrepareError, ReceiptDomain, NonceRow, ReceiptDb,
  HexReader, parse_hash, Joined, join_receipt, charge_error, is_covered, set_amount,
  checked_receipt, take_nonce, bad_domain,
}

module _ (hex : HexReader) where
  open hex use {hex_to_hash, hex_to_address}

  -- The receipt, before its validation.
  abbrev pub make_receipt :
      ReceiptDomain → String → Joined → Hash → Hash → Hash → Hash → Hash → ℕ → ℕ → Receipt
  make_receipt domain id j offer model capability input output total nonce = record {
    request_id = hex_to_hash id;
    session_id = hex_to_hash j.proposal.session_id;
    customer = hex_to_address j.customer;
    provider = hex_to_address j.provider;
    settlement_signer = hex_to_address domain.settlement_signer;
    offer_id = offer;
    price_version = j.proposal.price_version;
    model_hash = model;
    capability_hash = capability;
    input_tokens = j.proposal.input_tokens;
    output_tokens = j.proposal.output_tokens;
    compute_milliseconds = j.proposal.compute_milliseconds;
    maximum_charge = j.request.maximum_spend;
    total_charge = total;
    fee_basis_points = domain.fee_basis_points;
    fee_version = domain.fee_version;
    status = receipt_status_completed;
    completed_at = j.digests.completed_at;
    input_hash = input;
    output_hash = output;
    nonce = nonce;
  }

  -- The tables after it.
  abbrev pub write_receipt : String → ℕ → List NonceRow → ReceiptDb → ReceiptDb
  write_receipt id total nonces s = record s {
    db = record s.db { reservations = set_amount id total s.db.reservations };
    nonces = nonces;
  }

  -- The charge of the request, and its three hashes.
  unfoldable pub price_receipt :
      ReceiptDomain → ReceiptDb → Joined → Result PrepareError (ℕ × Hash × Hash × Hash)
  unfolding parse_hash
  price_receipt domain s j = do
    offer ← or_fail (parse_hash j.request.offer_hash) invalid_receipt
    model ← or_fail (parse_hash j.request.model_hash) invalid_receipt
    capability ← or_fail (parse_hash j.request.capability_hash) invalid_receipt
    rates ←
        or_fail (s.offers domain j.provider offer j.proposal.price_version model capability)
          not_found
    total ← charge_error (
        exact_charge j.proposal.input_tokens j.proposal.output_tokens
          j.proposal.compute_milliseconds rates.input_per_million rates.output_per_million
          rates.compute_per_second)
    ok (total, offer, model, capability)

  -- The rest of `PrepareReceipt`, from the charge on.
  unfoldable pub reserve_receipt :
      ReceiptDomain
      → String
      → ReceiptDb
      → Joined
      → ℕ × Hash × Hash × Hash
      → Result PrepareError (Receipt × String × String × ReceiptDb)
  unfolding set_amount take_nonce
  reserve_receipt domain id s j (total, offer, model, capability) = do
    fail_if (not (ltb j.request.maximum_spend u64_mod) || ltb j.request.maximum_spend total)
        maximum_exceeded
    fail_if (not (any (is_covered id total) s.db.reservations)) maximum_exceeded
    let taken = take_nonce hex id j.provider s.nonces
    input ← or_fail j.digests.input_hash invalid_receipt
    output ← or_fail j.digests.output_hash invalid_receipt
    let receipt = make_receipt domain id j offer model capability input output total taken.0
    fail_if (is_zero receipt.request_id || is_zero receipt.session_id) invalid_receipt
    checked_receipt (validate receipt)
    ok (receipt, j.proposal.machine_id, j.signer, write_receipt id total taken.1 s)

  -- `PrepareReceipt`
  unfoldable pub prepare_receipt :
      ReceiptDomain
      → String
      → ReceiptDb
      → Result PrepareError (Receipt × String × String × ReceiptDb)
  unfolding join_receipt price_receipt reserve_receipt
  prepare_receipt domain id s = do
    fail_if (bad_domain hex domain) invalid_receipt
    j ← join_receipt s id
    priced ← price_receipt domain s j
    reserve_receipt domain id s j priced

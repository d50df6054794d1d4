-- ===== src/Protocol/Signing.antt =====
-- protocol/v1/signing.go: the digest of a receipt under EIP-712, its signature, and the recovery of the
-- signer.
pub mod Binding
pub mod Recovery
use myference.Prelude.{
  ℕ, zero, suc, ◌+◌, ◌-◌, ◌%◌, String, Bool, true, false, not, ◌||◌, Option, none, some, List, [],
  ◌∷◌, leb, ◌==◌, length, if◌then◌else◌,
}
use myference.Prelude.Result.{Result, ok, err, ◌>>=◌}
use myference.Protocol.Receipt.{Hash, Address, Receipt, is_zero, validate}

pub data SigningError : Type 0 where
  invalid_receipt no_key no_signer : SigningError

-- go-ethereum's hashes and its curve. A word is a static value, which the ABI packs into 32 bytes;
-- `hash_words` is the Keccak hash of packed words, `hash_text` that of a text, and `hash_typed` that of
-- the bytes 0x19 and 0x01 before two hashes. A signature is the list of its bytes; `sign` gives 65, of
-- which the last is 0 or 1.
pub record Crypto : Type 1 where
  pub Key : Type 0
  pub hash_words : List ℕ → Hash
  pub hash_text : String → Hash
  pub hash_typed : Hash → Hash → Hash
  pub sign : Hash → Key → Option (List ℕ)
  pub recover : Hash → List ℕ → Option Address

abbrev pub receipt_type : String
receipt_type =
    "Receipt(bytes32 requestId,bytes32 sessionId,address customer,address provider,address settlementSigner,bytes32 offerId,uint64 priceVersion,bytes32 modelHash,bytes32 capabilityHash,uint64 inputTokens,uint64 outputTokens,uint64 computeMilliseconds,uint64 maximumCharge,uint64 totalCharge,uint16 feeBasisPoints,uint64 feeVersion,uint8 status,uint64 completedAt,bytes32 inputHash,bytes32 outputHash,uint64 nonce)"

abbrev pub domain_type : String
domain_type = "EIP712Domain(string name,string version,uint256 chainId,address verifyingContract)"

abbrev pub signature_length : ℕ
signature_length = 65

-- The byte 64 of a signature, changed.
unfoldable pub change_at : ℕ → (ℕ → ℕ) → List ℕ → List ℕ
change_at n f [] = []
change_at zero f (b ∷ bytes) = f b ∷ bytes
change_at (suc n) f (b ∷ bytes) = b ∷ change_at n f bytes

module _ (c : Crypto) where
  open c use {Key, hash_words, hash_text, hash_typed, sign, recover}

  abbrev pub domain_words : ℕ → Address → List ℕ
  domain_words chain_id contract =
      hash_text domain_type ∷ hash_text "MyferenceMarket" ∷ hash_text "1" ∷ chain_id ∷ contract ∷ []

  abbrev pub receipt_words : Receipt → List ℕ
  receipt_words r =
      hash_text receipt_type
      ∷ r.request_id
      ∷ r.session_id
      ∷ r.customer
      ∷ r.provider
      ∷ r.settlement_signer
      ∷ r.offer_id
      ∷ r.price_version
      ∷ r.model_hash
      ∷ r.capability_hash
      ∷ r.input_tokens
      ∷ r.output_tokens
      ∷ r.compute_milliseconds
      ∷ r.maximum_charge
      ∷ r.total_charge
      ∷ r.fee_basis_points
      ∷ r.fee_version
      ∷ r.status
      ∷ r.completed_at
      ∷ r.input_hash
      ∷ r.output_hash
      ∷ r.nonce
      ∷ []

  abbrev pub is_none {ℓ} : {A : Type ℓ} → Option A → Bool
  is_none none = true
  is_none (some a) = false

  -- `ReceiptDigest`
  unfoldable pub receipt_digest : Receipt → ℕ → Address → Result SigningError Hash
  receipt_digest r chain_id contract =
      if not (is_none (validate r)) || chain_id == 0 || is_zero contract
      then err invalid_receipt
      else ok
          (hash_typed (hash_words (domain_words chain_id contract)) (hash_words (receipt_words r)))

  abbrev pub signed_bytes : Option (List ℕ) → Result SigningError (List ℕ)
  signed_bytes none = err no_signer
  signed_bytes (some bytes) = ok (change_at 64 (λ b. (b + 27) % 256) bytes)

  -- `SignReceipt`
  unfoldable pub sign_receipt : Receipt → ℕ → Address → Option Key → Result SigningError (List ℕ)
  unfolding receipt_digest change_at
  sign_receipt r chain_id contract none = err no_key
  sign_receipt r chain_id contract (some key) =
      receipt_digest r chain_id contract >>= λ digest. signed_bytes (sign digest key)

  abbrev pub found_signer : Option Address → Result SigningError Address
  found_signer none = err no_signer
  found_signer (some address) = ok address

  abbrev pub normalized : List ℕ → List ℕ
  normalized bytes = change_at 64 (λ b. if leb 27 b then b - 27 else b) bytes

  -- `RecoverReceiptSigner`
  unfoldable pub recover_receipt_signer :
      Receipt → ℕ → Address → List ℕ → Result SigningError Address
  unfolding receipt_digest change_at
  recover_receipt_signer r chain_id contract signature =
      if not (length signature == signature_length)
      then err invalid_receipt
      else receipt_digest r chain_id contract >>= λ digest.
          found_signer (recover digest (normalized signature))

-- ===== src/Examples/Signatures.antt =====
-- The signature of a receipt at concrete inputs.
use myference.Prelude.{
  ℕ, zero, suc, ◌+◌, ◌*◌, ◌≤◌, some, List, [], ◌∷◌, ◌++◌, ◌≡◌, ◌⊎◌, refl, arith, length,
}
use myference.Prelude.Result.{Result, ok, err}
use myference.Protocol.Receipt.{Receipt, Hash, validate}
use myference.Protocol.Signing.{
  SigningError, Crypto, receipt_digest, sign_receipt, change_at, recover_receipt_signer,
}
use myference.Protocol.Signing.Binding.{HasCollision, digest_binds}
use myference.Protocol.Signing.Recovery.{byte_at, recover-sign}

abbrev zeros : ℕ → List ℕ
zeros zero = []
zeros (suc n) = 0 ∷ zeros n

abbrev mixed : List ℕ → ℕ
mixed [] = 1
mixed (w ∷ ws) = w + 3 * mixed ws

-- One signature for every receipt, and one signer.
abbrev toy : Crypto
toy = record {
  Key = ℕ;
  hash_words = mixed;
  hash_text = λ s. 5;
  hash_typed = λ d s. d + 2 * s;
  sign = λ digest key. some (zeros 64 ++ 1 ∷ []);
  recover = λ digest bytes. some 8;
}

abbrev paid_receipt : Receipt
paid_receipt = record {
  request_id = 7;
  session_id = 7;
  customer = 8;
  provider = 8;
  settlement_signer = 8;
  offer_id = 170;
  price_version = 1;
  model_hash = 170;
  capability_hash = 170;
  input_tokens = 1;
  output_tokens = 1;
  compute_milliseconds = 1000;
  maximum_charge = 15;
  total_charge = 11;
  fee_basis_points = 500;
  fee_version = 1;
  status = 1;
  completed_at = 9;
  input_hash = 1;
  output_hash = 2;
  nonce = 5;
}

abbrev or_zero : Result SigningError Hash → Hash
or_zero (ok d) = d
or_zero (err e) = 0

abbrev paid_digest : Hash
paid_digest = or_zero (receipt_digest toy paid_receipt 10143 6)

digests : receipt_digest toy paid_receipt 10143 6 ≡ ok paid_digest
unfolding receipt_digest validate
digests = refl

digest_binds_example :
    ((paid_receipt ≡ paid_receipt) × (◌≡◌ {A = ℕ} 10143 10143) × (◌≡◌ {A = ℕ} 6 6))
    ⊎ HasCollision toy
digest_binds_example =
    digest_binds toy paid_receipt paid_receipt 10143 10143 6 6 paid_digest digests digests

abbrev paid_signature : List ℕ
paid_signature = zeros 64 ++ 28 ∷ []

signs : sign_receipt toy paid_receipt 10143 6 (some 4) ≡ ok paid_signature
unfolding sign_receipt receipt_digest validate change_at
signs = refl

toy_recovers :
    (digest : Hash) (bytes : List ℕ)
    → toy.sign digest 4 ≡ some bytes
    → (length bytes ≡ 65) × (byte_at 64 bytes ≤ 1) × (toy.recover digest bytes ≡ some 8)
toy_recovers digest bytes h =
    let e : bytes ≡ zeros 64 ++ 1 ∷ [] = ground arith in rw e (refl, omega arith, refl)

recover-sign_example : recover_receipt_signer toy paid_receipt 10143 6 paid_signature ≡ ok 8
recover-sign_example = recover-sign toy 4 8 paid_receipt 10143 6 paid_signature toy_recovers signs

-- ===== src/Protocol/Signing/Recovery.antt =====
-- The signer of a receipt is recovered from its signature.
use myference.Prelude.{
  ℕ, zero, suc, ◌+◌, ◌-◌, ◌%◌, ◌≤◌, some, List, [], ◌∷◌, ◌≡◌, refl, leb, length, arith,
  Option-cases, inl, inr, if◌then◌else◌,
}
use myference.Prelude.Result.{ok, Result-cases}
use myference.Protocol.Receipt.{Hash, Address, Receipt}
use myference.Protocol.Signing.{
  Crypto, change_at, receipt_digest, sign_receipt, recover_receipt_signer, signature_length,
}

-- The byte of a list at a place, if it is that long.
abbrev pub byte_at : ℕ → List ℕ → ℕ
byte_at n [] = 0
byte_at zero (b ∷ bytes) = b
byte_at (suc n) (b ∷ bytes) = byte_at n bytes

length-change_at :
    (n : ℕ) (f : ℕ → ℕ) (bytes : List ℕ) → length (change_at n f bytes) ≡ length bytes
unfolding change_at
length-change_at n f [] = refl
length-change_at zero f (b ∷ bytes) = refl
length-change_at (suc n) f (b ∷ bytes) = ground (arith, length-change_at n f bytes)

change_at-back :
    (n : ℕ) (f g : ℕ → ℕ) (bytes : List ℕ)
    → g (f (byte_at n bytes)) ≡ byte_at n bytes
    → change_at n g (change_at n f bytes) ≡ bytes
unfolding change_at
change_at-back n f g [] h = refl
change_at-back zero f g (b ∷ bytes) h = rw h refl
change_at-back (suc n) f g (b ∷ bytes) h = ground (arith, change_at-back n f g bytes h)

-- From a signature that was made of a receipt, the address of the key is recovered, if the curve
-- recovers it from the 65 bytes that it gives for the digest, of which the last is 0 or 1.
pub recover-sign :
    (c : Crypto) (key : c.Key) (address : Address) (r : Receipt) (chain_id : ℕ) (contract : Address)
    (signature : List ℕ)
    → ((digest : Hash) (bytes : List ℕ)
        → c.sign digest key ≡ some bytes
        → (length bytes ≡ signature_length)
          × (byte_at 64 bytes ≤ 1)
          × (c.recover digest bytes ≡ some address))
    → sign_receipt c r chain_id contract (some key) ≡ ok signature
    → recover_receipt_signer c r chain_id contract signature ≡ ok address
unfolding sign_receipt recover_receipt_signer
recover-sign c key address r chain_id contract signature recovers h =
    elim (Result-cases (receipt_digest c r chain_id contract)) [
      | inr (e, bad) ↦ absurd (ground arith)
      | inl (digest, fine) ↦ elim (Option-cases (c.sign digest key)) [
        | inl unsigned ↦ absurd (ground arith)
        | inr (bytes, signed) ↦
            let (long, last, found) = recovers digest bytes signed in
            let add = λ (b : ℕ). (b + 27) % 256 in
            let back = λ (b : ℕ). if leb 27 b then b - 27 else b in
            let e : signature ≡ change_at 64 add bytes = ground arith in
            let undone = change_at-back 64 add back bytes (ground arith) in
            let same_length = length-change_at 64 add bytes in
            rw (e, fine, undone, found, same_length, long) refl
      ]
    ]

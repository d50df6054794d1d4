-- ===== src/Protocol/Signing/Binding.antt =====
-- A digest binds the receipt that it was made of.
use myference.Prelude.{
  ℕ, Bool, true, false, ◌&&◌, List, [], ◌∷◌, ◌≡◌, ◌≢◌, ◌⊎◌, inl, inr, refl, ap, ◌==◌, arith,
  Bool-cases,
}
use myference.Prelude.Result.{ok}
use myference.Protocol.Receipt.{Hash, Address, Receipt}
use myference.Protocol.Signing.{Crypto, domain_words, receipt_words, receipt_digest}

unfoldable same_words : List ℕ → List ℕ → Bool
same_words [] [] = true
same_words [] (b ∷ bs) = false
same_words (a ∷ as_) [] = false
same_words (a ∷ as_) (b ∷ bs) = a == b && same_words as_ bs

same_words-eq : (xs ys : List ℕ) → same_words xs ys ≡ true → xs ≡ ys
unfolding same_words
same_words-eq [] [] h = refl
same_words-eq [] (y ∷ ys) h = cc
same_words-eq (x ∷ xs) [] h = cc
same_words-eq (x ∷ xs) (y ∷ ys) h = ground (arith, same_words-eq xs ys)

same_words_refl : (xs : List ℕ) → same_words xs xs ≡ true
unfolding same_words
same_words_refl [] = refl
same_words_refl (x ∷ xs) = ground (arith, same_words_refl xs)

module _ (c : Crypto) where
  -- Two inputs of a hash with one output.
  abbrev pub WordCollision : Type 0
  WordCollision = (xs : List ℕ) × (ys : List ℕ) × (xs ≢ ys) × (c.hash_words xs ≡ c.hash_words ys)

  abbrev pub TypedCollision : Type 0
  TypedCollision =
      (d : Hash) × (s : Hash) × (d' : Hash) × (s' : Hash) × ◌≢◌ {A = Hash × Hash} (d, s) (d', s')
      × (c.hash_typed d s ≡ c.hash_typed d' s')

  abbrev pub HasCollision : Type 0
  HasCollision = WordCollision ⊎ TypedCollision

  words_bind : (xs ys : List ℕ) → c.hash_words xs ≡ c.hash_words ys → (xs ≡ ys) ⊎ HasCollision
  words_bind xs ys h = elim (Bool-cases (same_words xs ys)) [
    | inl same ↦ inl (same_words-eq xs ys same)
    | inr other ↦ inr (
        inl (
          xs,
          ys,
          (λ e. ground (arith, e, same_words_refl xs, rw e at other, same_words_refl ys)),
          h,
        ))
  ]

  typed_bind :
      (d s d' s' : Hash)
      → c.hash_typed d s ≡ c.hash_typed d' s'
      → ((d ≡ d') × (s ≡ s')) ⊎ HasCollision
  typed_bind d s d' s' h = elim (Bool-cases (d == d' && s == s')) [
    | inl same ↦ inl (ground arith, ground arith)
    | inr other ↦ inr (
        inr (
          d,
          s,
          d',
          s',
          (λ e. ground (arith, ap (λ (p : Hash × Hash). p.0) e, ap (λ (p : Hash × Hash). p.1) e)),
          h,
        ))
  ]

  receipt-words : (r r' : Receipt) → receipt_words c r ≡ receipt_words c r' → r ≡ r'
  receipt-words r r' h = ground arith

  domain-words :
      (n n' : ℕ) (a a' : Address) → domain_words c n a ≡ domain_words c n' a' → (n ≡ n') × (a ≡ a')
  domain-words n n' a a' h = (ground arith, ground arith)

-- Two receipts that have one digest are the same receipt, on the same chain and for the same contract,
-- or two inputs of a hash are known that collide: every field is signed.
pub digest_binds :
    (c : Crypto) (r r' : Receipt) (n n' : ℕ) (a a' : Address) (digest : Hash)
    → receipt_digest c r n a ≡ ok digest
    → receipt_digest c r' n' a' ≡ ok digest
    → ((r ≡ r') × (n ≡ n') × (a ≡ a')) ⊎ HasCollision c
unfolding receipt_digest
digest_binds c r r' n n' a a' digest h h' =
    let same : c.hash_typed (c.hash_words (domain_words c n a)) (c.hash_words (receipt_words c r))
        ≡ c.hash_typed (c.hash_words (domain_words c n' a')) (c.hash_words (receipt_words c r')) =
      ground arith in
    elim (typed_bind c _ _ _ _ same) [
      | inr bad ↦ inr bad
      | inl (domains, receipts) ↦
          elim (words_bind c (domain_words c n a) (domain_words c n' a') domains) [
            | inr bad ↦ inr bad
            | inl same_domain ↦
                elim (words_bind c (receipt_words c r) (receipt_words c r') receipts) [
                  | inr bad ↦ inr bad
                  | inl same_receipt ↦
                      let (chain, contract) = domain-words c n n' a a' same_domain in
                      inl (receipt-words c r r' same_receipt, chain, contract)
                ]
          ]
    ]

-- ===== src/Store/Receipts/Prepared.antt =====
-- What a receipt that was prepared says, and what is reserved for it.
use myference.Prelude.{
  ℕ, ◌≤◌, String, Bool, true, false, ◌&&◌, Option, none, some, List, [], ◌∷◌, ◌≡◌, refl, str_eq,
  any, ◌==◌, arith, Bool-cases, Option-cases, inl, inr,
}
use myference.Prelude.Result.{ok, >>=-eq-ok, Result-cases}
use myference.Protocol.Receipt.{Receipt, ReceiptError, Hash, validate}
use myference.Store.Tables.{ReservationRow}
use myference.Store.ExactCharge.{exact_charge}
use myference.Store.Inference.{or_fail, locked}
use myference.Store.Inference.Solvency.{IsSolvent}
use myference.Store.Receipts.{
  ReceiptDomain, ReceiptDb, HexReader, Joined, Rates, join_receipt, checked_receipt, is_covered,
  set_amount, take_nonce, parse_hash, bad_domain,
}
use myference.Store.Prepare.{
  make_receipt, write_receipt, price_receipt, reserve_receipt, prepare_receipt,
}

-- What the charge was computed from.
pub record Priced (s : ReceiptDb) (domain : ReceiptDomain) (j : Joined) (total : ℕ)
    (offer model capability : Hash) : Type 0 where
  pub rates : Rates
  pub found :
      s.offers domain j.provider offer j.proposal.price_version model capability ≡ some rates
  pub exact :
      exact_charge j.proposal.input_tokens j.proposal.output_tokens j.proposal.compute_milliseconds
        rates.input_per_million rates.output_per_million rates.compute_per_second
      ≡ ok total

price-Priced :
    (hex : HexReader) (domain : ReceiptDomain) (s : ReceiptDb) (j : Joined) (total : ℕ)
    (offer model capability : Hash)
    → price_receipt hex domain s j ≡ ok (total, offer, model, capability)
    → Priced s domain j total offer model capability
unfolding price_receipt
price-Priced hex domain s j total offer model capability h =
    let (o, h1, _) = >>=-eq-ok (or_fail (parse_hash j.request.offer_hash) _) _ h in
    let (m, h2, _) = >>=-eq-ok (or_fail (parse_hash j.request.model_hash) _) _ h1 in
    let (c, h3, _) = >>=-eq-ok (or_fail (parse_hash j.request.capability_hash) _) _ h2 in
    elim (Option-cases (s.offers domain j.provider o j.proposal.price_version m c)) [
      | inl missing ↦ absurd (ground arith)
      | inr (rates, found) ↦
          elim (Result-cases (
            exact_charge j.proposal.input_tokens j.proposal.output_tokens
              j.proposal.compute_milliseconds rates.input_per_million rates.output_per_million
              rates.compute_per_second)) [
                | inr (e, bad) ↦ absurd (ground arith)
                | inl (n, exact) ↦ record {
                  rates = rates;
                  found = ground arith;
                  exact = ground arith;
                }
              ]
    ]

-- What `PrepareReceipt` has found when it succeeds, and written.
pub record Prepared (hex : HexReader) (domain : ReceiptDomain) (id : String) (s : ReceiptDb)
    (r : Receipt) (s' : ReceiptDb) : Type 0 where
  pub j : Joined
  pub total : ℕ
  pub offer : Hash
  pub model : Hash
  pub capability : Hash
  pub input : Hash
  pub output : Hash
  pub priced : Priced s domain j total offer model capability
  pub within : total ≤ j.request.maximum_spend
  pub covered : any (is_covered id total) s.db.reservations ≡ true
  pub valid : validate r ≡ none
  pub receipt :
      r
      ≡ make_receipt hex domain id j offer model capability input output total
          (take_nonce hex id j.provider s.nonces).0
  pub result : s' ≡ write_receipt hex id total (take_nonce hex id j.provider s.nonces).1 s

checked_valid : (o : Option ReceiptError) {u : Unit} → checked_receipt o ≡ ok u → o ≡ none
checked_valid none h = refl
checked_valid (some ReceiptError.invalid_receipt) h = cc
checked_valid (some ReceiptError.maximum_exceeded) h = cc

reserve-Prepared :
    (hex : HexReader) (domain : ReceiptDomain) (id : String) (s : ReceiptDb) (j : Joined)
    (total : ℕ) (offer model capability : Hash) (r : Receipt) (machine signer : String)
    (s' : ReceiptDb)
    → Priced s domain j total offer model capability
    → reserve_receipt hex domain id s j (total, offer, model, capability)
      ≡ ok (r, machine, signer, s')
    → Prepared hex domain id s r s'
unfolding reserve_receipt
reserve-Prepared hex domain id s j total offer model capability r machine signer s' priced h =
    elim (Option-cases j.digests.input_hash) [
      | inl none_in ↦ absurd (ground arith)
      | inr (input, e1) ↦ elim (Option-cases j.digests.output_hash) [
        | inl none_out ↦ absurd (ground arith)
        | inr (output, e2) ↦
            let made =
              make_receipt hex domain id j offer model capability input output total
                (take_nonce hex id j.provider s.nonces).0 in
            elim (Result-cases (checked_receipt (validate made))) [
              | inr (bad, refused) ↦ absurd (ground arith)
              | inl (_, checked) ↦
                  let fine = checked_valid (validate made) checked in
                  record {
                    j = j;
                    total = total;
                    offer = offer;
                    model = model;
                    capability = capability;
                    input = input;
                    output = output;
                    priced = priced;
                    within = ground arith;
                    covered = ground arith;
                    valid = ground arith;
                    receipt = ground arith;
                    result = ground arith;
                  }
            ]
      ]
    ]

pub prepare-Prepared :
    (hex : HexReader) (domain : ReceiptDomain) (id : String) (s : ReceiptDb) (r : Receipt)
    (machine signer : String) (s' : ReceiptDb)
    → prepare_receipt hex domain id s ≡ ok (r, machine, signer, s')
    → Prepared hex domain id s r s'
unfolding prepare_receipt
prepare-Prepared hex domain id s r machine signer s' h = elim (Bool-cases (bad_domain hex domain)) [
  | inl bad ↦ absurd (ground arith)
  | inr fine ↦ elim (Result-cases (join_receipt s id)) [
    | inr (e, missing) ↦ absurd (ground arith)
    | inl (j, joined) ↦ elim (Result-cases (price_receipt hex domain s j)) [
      | inr (e, bad) ↦ absurd (ground arith)
      | inl ((total, offer, model, capability), priced) ↦
          reserve-Prepared hex domain id s j total offer model capability r machine signer s'
            (price-Priced hex domain s j total offer model capability priced) (ground arith)
    ]
  ]
]

-- A reservation of the request that holds just the amount.
abbrev pub holds : String → ℕ → ReservationRow → Bool
holds id total row = str_eq row.request_id id && row.amount == total

holds-set_amount :
    (id : String) (total : ℕ) (rows : List ReservationRow)
    → any (is_covered id total) rows ≡ true
    → any (holds id total) (set_amount id total rows) ≡ true
unfolding set_amount
holds-set_amount id total [] h = absurd (ground arith)
holds-set_amount id total (row ∷ rows) h = ground (arith, holds-set_amount id total rows)

-- A receipt that is prepared is valid. Its charge is the exact charge of the tokens and the time that
-- it names at the rates that the chain has for its offer, price version, model and capability, it is
-- at most the maximum that it names, and the request's reservation then holds just that charge.
pub prepared_receipt :
    (hex : HexReader) (domain : ReceiptDomain) (id : String) (s : ReceiptDb) (r : Receipt)
    (machine signer : String) (s' : ReceiptDb)
    → prepare_receipt hex domain id s ≡ ok (r, machine, signer, s')
    → (validate r ≡ none)
      × (r.total_charge ≤ r.maximum_charge)
      × (any (holds id r.total_charge) s'.db.reservations ≡ true)
      × (provider : String) × (rates : Rates) × (s.offers domain provider r.offer_id r.price_version
            r.model_hash r.capability_hash
          ≡ some rates)
      × (exact_charge r.input_tokens r.output_tokens r.compute_milliseconds rates.input_per_million
            rates.output_per_million rates.compute_per_second
          ≡ ok r.total_charge)
prepared_receipt hex domain id s r machine signer s' h =
    let x = prepare-Prepared hex domain id s r machine signer s' h in
    let held = holds-set_amount id x.total s.db.reservations x.covered in
    (
      x.valid,
      ground (arith, x.receipt, x.within),
      ground (arith, x.receipt, x.result, held),
      x.j.provider,
      x.priced.rates,
      rw x.receipt x.priced.found,
      rw x.receipt x.priced.exact,
    )

-- The request has no reservation that was released.
abbrev pub is_released : String → ReservationRow → Bool
is_released id row = str_eq row.request_id id && row.released

locked-set_amount :
    (session id : String) (total : ℕ) (rows : List ReservationRow)
    → any (is_released id) rows ≡ false
    → locked session (set_amount id total rows) ≤ locked session rows
unfolding locked set_amount
locked-set_amount session id total [] h = omega arith
locked-set_amount session id total (row ∷ rows) h =
    ground (arith, locked-set_amount session id total rows)

-- A preparation for a request whose reservation is open leaves every session with at least what its
-- open reservations hold, if that was so before.
pub prepare-IsSolvent :
    (hex : HexReader) (domain : ReceiptDomain) (id : String) (s : ReceiptDb) (r : Receipt)
    (machine signer : String) (s' : ReceiptDb)
    → IsSolvent s.db
    → any (is_released id) s.db.reservations ≡ false
    → prepare_receipt hex domain id s ≡ ok (r, machine, signer, s')
    → IsSolvent s'.db
prepare-IsSolvent hex domain id s r machine signer s' solvent open_ h session row there =
    let x = prepare-Prepared hex domain id s r machine signer s' h in
    ground (
      arith,
      x.result,
      solvent session row,
      locked-set_amount session id x.total s.db.reservations open_,
    )

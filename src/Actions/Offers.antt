-- ===== src/Actions/Offers.antt =====
-- What `validateProviderActionInput` guarantees of the offers that a provider publishes.
use myference.Prelude.{
  ℕ, ◌^◌, Option, none, some, eq_iff, Bool-cases, ◌≢◌, suc, ◌<◌, ◌≤◌, String, true, false, List, [],
  ◌∷◌, ◌≡◌, ◌⊎◌, inl, inr, refl, sym, ap, str_eq, arith, trim_space, any, length, All,
}
use myference.Prelude.Int.{ℤ, pos, negsuc}
use myference.Prelude.Decimal.{set_string, show_nat, read_nat, read_digits}
use myference.Prelude.Result.{ok, >>=-eq-ok, Result-cases}
use myference.Actions.Inputs.{
  Offer, Input, is_plain, valid_decimal, validate_input, validate_offers, normal_offer, check_offer,
}

-- The text is the decimal form of a number below 2 to the power of 256, which is also the number
-- that it is read as.
abbrev pub IsDecimal : String → ℕ → Type 0
IsDecimal text n = (n < 2 ^ 256) × (text ≡ show_nat n) × (set_string text ≡ some (pos n))

-- The rates are three such numbers, and those of the tokens are 0 where only compute is metered.
abbrev pub IsPriced : Offer → Type 0
IsPriced o =
    (input : ℕ) × (output : ℕ) × (compute : ℕ) × IsDecimal o.input_per_million_wei input
    × IsDecimal o.output_per_million_wei output
    × IsDecimal o.compute_per_second_wei compute
    × ((o.metering_mode ≢ "compute_only") ⊎ ((input ≡ 0) × (output ≡ 0)))

plain-IsDecimal :
    (text : String) (o : Option ℤ)
    → set_string text ≡ o
    → is_plain false text o ≡ true
    → (n : ℕ) × IsDecimal text n
plain-IsDecimal text none read h = cc
plain-IsDecimal text (some (negsuc n)) read h = cc
plain-IsDecimal text (some (pos n)) read h =
    (n, (ground arith, ground (arith, eq_iff (show_nat n) text), read))

valid-IsDecimal : (text : String) → valid_decimal text false ≡ true → (n : ℕ) × IsDecimal text n
unfolding valid_decimal
valid-IsDecimal text h = plain-IsDecimal text (set_string text) refl h

zero_read : set_string "0" ≡ some (pos 0)
unfolding set_string read_nat read_digits
zero_read = refl

-- The number whose text is "0" is 0.
zero-IsDecimal : (text : String) (n : ℕ) → IsDecimal text n → str_eq text "0" ≡ true → n ≡ 0
zero-IsDecimal text n (small, shown, read) h =
    let e : text ≡ "0" = ground (arith, eq_iff text "0") in
    let read_zero : set_string "0" ≡ some (pos n) = rw (sym e) read in
    ground (arith, read_zero, zero_read)

-- No offer has an id of `seen` or of an offer before it.
abbrev pub Distinct : List String → List Offer → Type 0
Distinct seen [] = Unit
Distinct seen (o ∷ os) = (any (str_eq o.offer_id) seen ≡ false) × Distinct (o.offer_id ∷ seen) os

checked :
    (sort : List String → List String) (seen : List String) (o : Offer)
    → check_offer sort seen o ≡ ok tt
    → (any (str_eq o.offer_id) seen ≡ false) × IsPriced o
unfolding check_offer
checked sort seen o h =
    let (input, i) = valid-IsDecimal o.input_per_million_wei (ground arith) in
    let (output, u) = valid-IsDecimal o.output_per_million_wei (ground arith) in
    let (compute, c) = valid-IsDecimal o.compute_per_second_wei (ground arith) in
    let metered : (o.metering_mode ≢ "compute_only") ⊎ ((input ≡ 0) × (output ≡ 0)) =
      elim (Bool-cases (str_eq o.metering_mode "compute_only")) [
        | inr tokens ↦ inl (λ same. ground (arith, same, eq_iff o.metering_mode "compute_only"))
        | inl compute_only ↦ inr (
          zero-IsDecimal o.input_per_million_wei input i (ground arith),
          zero-IsDecimal o.output_per_million_wei output u (ground arith),
        )
      ] in
    (ground arith, (input, output, compute, i, u, c, metered))

validate_offers-Distinct :
    (sort : List String → List String) (seen : List String) (os vs : List Offer)
    → validate_offers sort seen os ≡ ok vs
    → Distinct seen vs × All IsPriced vs × (length vs ≡ length os)
unfolding validate_offers
validate_offers-Distinct sort seen [] vs h =
    let same : [] ≡ vs = ground arith in rw (sym same) (tt, tt, refl)
validate_offers-Distinct sort seen (o ∷ os) vs h =
    let (_, rest_ok, checks) = >>=-eq-ok (check_offer sort seen (normal_offer sort o)) _ h in
    let (rest, same, rest_valid) =
      >>=-eq-ok (validate_offers sort ((normal_offer sort o).offer_id ∷ seen) os) _ rest_ok in
    let ih =
      validate_offers-Distinct sort ((normal_offer sort o).offer_id ∷ seen) os rest rest_valid in
    let (fresh, priced) = checked sort seen (normal_offer sort o) checks in
    let equal : normal_offer sort o ∷ rest ≡ vs = ground (arith, same) in
    rw (sym equal) ((fresh, ih.0), (priced, ih.1), ap suc ih.2)

publication :
    (sort : List String → List String) (raw v : Input)
    → validate_input sort raw ≡ ok v
    → trim_space raw.kind ≡ "publish_offer"
    → (validate_offers sort [] raw.offers ≡ ok v.offers)
      × (0 < length raw.offers)
      × (length raw.offers ≤ 64)
unfolding validate_input
publication sort raw v h k = elim (Result-cases (validate_offers sort [] raw.offers)) [
  | inl (os, valid) ↦ let h' = rw (k, valid) at h in ground (arith, h')
  | inr (e, bad) ↦ let h' = rw (k, bad) at h in ground (arith, h')
]

-- A publication that is accepted has one to 64 offers, as many as were asked for; their ids are
-- distinct; and each rate is the decimal form of a number below 2 to the power of 256, which is what it
-- is read as, and which is 0 for the tokens of an offer that meters compute only.
pub published_offers :
    (sort : List String → List String) (raw v : Input)
    → validate_input sort raw ≡ ok v
    → trim_space raw.kind ≡ "publish_offer"
    → (0 < length v.offers)
      × (length v.offers ≤ 64)
      × (length v.offers ≡ length raw.offers)
      × Distinct [] v.offers
      × All IsPriced v.offers
published_offers sort raw v h k =
    let (valid, some_offer, few) = publication sort raw v h k in
    let (fresh, priced, same) = validate_offers-Distinct sort [] raw.offers v.offers valid in
    (omega (arith, same), omega (arith, same), same, fresh, priced)

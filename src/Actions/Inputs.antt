-- ===== src/Actions/Inputs.antt =====
-- server/internal/api/provider_action.go: what a provider may ask for, and its validation.
use Prim.Native.Char.{code}
use myference.Prelude.{
  ℕ, suc, String, Bool, true, false, not, ◌&&◌, ◌||◌, ◌^◌, Option, none, some, List, [], ◌∷◌, ltb,
  leb, ◌==◌, str_eq, is_blank, is_empty, trim_space, length, any, if◌then◌else◌,
}
use myference.Prelude.Int.{ℤ, pos, negsuc}
use myference.Prelude.Decimal.{set_string, show_nat, is_digit}
use myference.Prelude.Result.{Result, ok, err, ◌>>=◌, ◌>>◌, fail_if}

pub data InputError : Type 0 where
  deposit_amount exit_with_amount offer_count offer_identity duplicate_offer offer_rates
        compute_only_rates unsupported :
      InputError

pub record Offer : Type 0 where
  pub offer_id : String
  pub model : String
  pub kind : String
  pub capabilities : List String
  pub metering_mode : String
  pub input_per_million_wei : String
  pub output_per_million_wei : String
  pub compute_per_second_wei : String

pub record Input : Type 0 where
  pub kind : String
  pub amount_wei : String
  pub offers : List Offer

abbrev pub max_provider_action_offers : ℕ
max_provider_action_offers = 64

-- A parsed number that is at most 256 bits long, is not negative (or not 0), and prints as `value`.
-- A negative number passes neither test of the sign.
abbrev pub is_plain : Bool → String → Option ℤ → Bool
is_plain positive value none = false
is_plain positive value (some (negsuc n)) = false
is_plain positive value (some (pos n)) =
    ltb n (2 ^ 256) && (not positive || ltb 0 n) && str_eq (show_nat n) value

-- `validDecimal`
unfoldable pub valid_decimal : String → Bool → Bool
valid_decimal value positive = is_plain positive value (set_string value)

abbrev is_hex : ℕ → Bool
is_hex c = is_digit c || (leb b'a' c && leb c b'f') || (leb b'A' c && leb c b'F')

abbrev pub all_hex : String → Bool
all_hex String.[] = true
all_hex (String.◌∷◌ c s) = is_hex (code c) && all_hex s

abbrev pub text_length : String → ℕ
text_length String.[] = 0
text_length (String.◌∷◌ c s) = suc (text_length s)

abbrev pub after_0x : String → Option String
after_0x (String.◌∷◌ c (String.◌∷◌ x s)) = if code c == b'0' && code x == b'x' then some s else none
after_0x _ = none

-- `validTransactionHash`: 64 hexadecimal digits after 0x, so that bytes and characters agree.
unfoldable pub is_transaction_hash : String → Bool
is_transaction_hash value = elim (after_0x value) [
  | none ↦ false
  | some digits ↦ text_length digits == 64 && all_hex digits
]

-- `slices.Compact`: of equal neighbours the first stays.
compact_after : String → List String → List String
compact_after last [] = []
compact_after last (x ∷ xs) =
    let rest = compact_after x xs in if str_eq last x then rest else x ∷ rest

unfoldable pub compact : List String → List String
unfolding compact_after
compact [] = []
compact (x ∷ xs) = x ∷ compact_after x xs

-- `sort` is `slices.Sort`.
module _ (sort : List String → List String) where
  unfoldable pub normal_offer : Offer → Offer
  unfolding compact
  normal_offer offer = record offer {
    offer_id = trim_space offer.offer_id;
    model = trim_space offer.model;
    kind = trim_space offer.kind;
    metering_mode = trim_space offer.metering_mode;
    capabilities = compact (sort offer.capabilities);
  }

  -- The checks of one offer that has been normalised; `seen` holds the ids before it.
  unfoldable pub check_offer : List String → Offer → Result InputError (Unit {0})
  check_offer seen offer =
      fail_if
        (is_empty offer.offer_id
          || is_empty offer.model
          || is_empty offer.kind
          || length offer.capabilities == 0
          || (not (str_eq offer.metering_mode "tokens_and_compute")
              && not (str_eq offer.metering_mode "compute_only")))
        offer_identity
      >> fail_if (any (str_eq offer.offer_id) seen) duplicate_offer
      >> fail_if
          (not (valid_decimal offer.input_per_million_wei false)
            || not (valid_decimal offer.output_per_million_wei false)
            || not (valid_decimal offer.compute_per_second_wei false))
          offer_rates
      >> fail_if
          (str_eq offer.metering_mode "compute_only"
            && (not (str_eq offer.input_per_million_wei "0")
                || not (str_eq offer.output_per_million_wei "0")))
          compute_only_rates

  unfoldable pub validate_offers : List String → List Offer → Result InputError (List Offer)
  unfolding check_offer normal_offer
  validate_offers seen [] = ok []
  validate_offers seen (o ∷ os) =
      let offer = normal_offer o in
      let rest = validate_offers (offer.offer_id ∷ seen) os in
      check_offer seen offer >> (rest >>= λ offers. ok (offer ∷ offers))

  -- `validateProviderActionInput`: the normalised input.
  unfoldable pub validate_input : Input → Result InputError Input
  unfolding validate_offers
  validate_input raw =
      let input : Input = record raw { kind = trim_space raw.kind } in
      if str_eq input.kind "deposit_collateral"
      then (fail_if (not (length input.offers == 0) || not (valid_decimal input.amount_wei true))
            deposit_amount
          >> ok input)
      else if str_eq input.kind "request_collateral_exit"
          || str_eq input.kind "finalize_collateral_exit"
      then (fail_if (not (length input.offers == 0) || not (is_blank input.amount_wei))
            exit_with_amount
          >> ok input)
      else if str_eq input.kind "publish_offer"
      then (fail_if
            (not (is_blank input.amount_wei)
              || length input.offers == 0
              || ltb max_provider_action_offers (length input.offers))
            offer_count
          >> (validate_offers [] input.offers >>= λ offers. ok (record input { offers = offers })))
      else err unsupported

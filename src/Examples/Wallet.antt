-- ===== src/Examples/Wallet.antt =====
-- The provider's actions at concrete inputs.
use myference.Prelude.{◌<◌, ◌≤◌, String, some, List, [], ◌∷◌, ◌≡◌, refl, arith, All, length}
use myference.Prelude.{is_blank}
use myference.Prelude.Text.{trim_space, trim_left, trim_right}
use myference.Prelude.Decimal.{set_string, read_nat, read_digits, show_nat, show_digits}
use myference.Actions.Inputs.{
  Offer, Input, valid_decimal, validate_input, validate_offers, check_offer, normal_offer, compact,
}
use myference.Actions.{pending_wallet, Action, Baseline, Items}
use myference.Actions.Entries.{IsStore}
use myference.Actions.Lifecycle.{
  ActionCall, create_call, get_call, submitted_call, confirm_call, perform_calls,
  perform_calls-IsStore,
}
use myference.Actions.Offers.{IsPriced, Distinct, published_offers}

abbrev unsorted : List String → List String
unsorted xs = xs

abbrev text_offer : Offer
text_offer = record {
  offer_id = "o1";
  model = "llama";
  kind = "ollama";
  capabilities = "text" ∷ [];
  metering_mode = "tokens_and_compute";
  input_per_million_wei = "3";
  output_per_million_wei = "7";
  compute_per_second_wei = "0";
}

abbrev publication : Input
publication = record { kind = "publish_offer"; amount_wei = ""; offers = text_offer ∷ [] }

abbrev no_baseline : Baseline
no_baseline = record { bond_wei = ""; claimable_wei = ""; exit_available_at = 0; versions = [] }

abbrev one_action : Action
one_action = record {
  id = "i1";
  kind = "publish_offer";
  status = pending_wallet;
  wallet_address = "0xw";
  amount_wei = "";
  offers = text_offer ∷ [];
  transaction_hashes = [];
  versions = [];
  expires_at = 900;
  machine_id = "m1";
  account_id = "a1";
  baseline = no_baseline;
}

abbrev one_item : Items
one_item = ("i1", one_action) ∷ []

abbrev wallet_calls : List ActionCall
wallet_calls =
    create_call unsorted 0 (some "i1") "m1" "a1" "0xw" publication no_baseline
    ∷ get_call 10 "i1" "a1"
    ∷ submitted_call 20 "i1" "a1" ("0x1" ∷ [])
    ∷ confirm_call "i1" "a1" []
    ∷ []

no_items-IsStore : IsStore []
unfolding IsStore
no_items-IsStore = (omega arith, tt)

perform_calls-IsStore_example : IsStore (perform_calls [] wallet_calls)
perform_calls-IsStore_example = perform_calls-IsStore [] wallet_calls no_items-IsStore

abbrev good_hash : String
good_hash = "0x00112233445566778899aabbccddeeff00112233445566778899aabbccddeeff"

published_offers_example :
    (0 < 1)
    × (1 ≤ 64)
    × (length publication.offers ≡ length publication.offers)
    × Distinct [] publication.offers
    × All IsPriced publication.offers
unfolding validate_input validate_offers check_offer normal_offer compact valid_decimal set_string
    read_nat read_digits show_nat show_digits is_blank trim_space trim_left trim_right
published_offers_example = published_offers unsorted publication publication refl refl

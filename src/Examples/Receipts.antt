-- ===== src/Examples/Receipts.antt =====
-- The preparation of a receipt at concrete inputs.
use myference.Prelude.{◌≤◌, String, true, false, none, some, [], ◌∷◌, ◌≡◌, refl, any, arith}
use myference.Prelude.Result.{ok}
use myference.Prelude.Decimal.{set_string, read_nat, read_digits}
use myference.Protocol.Chunks.{set_key}
use myference.Protocol.Receipt.{Receipt, validate}
use myference.Store.Tables.{completed, RequestRow, ProposalRow, Db}
use myference.Store.Inference.{locked}
use myference.Store.Inference.Solvency.{IsSolvent}
use myference.Store.ExactCharge.{exact_charge, add_charges, charge_part}
use myference.Store.Receipts.{
  ReceiptDomain, ReceiptDb, HexReader, Rates, join_receipt, parse_hash, read_hex, set_amount,
  take_nonce, last_nonce,
}
use myference.Store.Prepare.{prepare_receipt, price_receipt, reserve_receipt}
use myference.Store.Receipts.Prepared.{holds, prepared_receipt}
use myference.Store.Receipts.Nonces.{IsNonced, Recorded, prepare_all, prepare-IsNonced}

abbrev hash_text : String
hash_text = "0x00000000000000000000000000000000000000000000000000000000000000Aa"

abbrev plain_hex : HexReader
plain_hex = record {
  is_hex_address = λ s. true;
  hex_to_hash = λ s. 7;
  hex_to_address = λ s. 8;
  lower = λ s. s;
}

abbrev one_domain : ReceiptDomain
one_domain = record {
  chain_id = 10143;
  contract_address = "0xc";
  settlement_signer = "0xs";
  fee_basis_points = 500;
  fee_version = 1;
}

abbrev done_row : RequestRow
done_row = record {
  session_id = "s1";
  state = completed;
  machine_id = "m1";
  offer_id = "o1";
  price_version = 1;
  maximum_spend = 15;
  maximum_input_tokens = 2;
  maximum_output_tokens = 1;
  maximum_compute_milliseconds = 1500;
  offer_hash = hash_text;
  model_hash = hash_text;
  capability_hash = hash_text;
}

abbrev done_proposal : ProposalRow
done_proposal = record {
  session_id = "s1";
  machine_id = "m1";
  offer_id = "o1";
  model = "llama";
  price_version = 1;
  input_tokens = 1;
  output_tokens = 1;
  compute_milliseconds = 1000;
}

abbrev done_db : Db
done_db = record {
  sessions = λ s.
      set_key (λ k. none) "s1"
        (some (record { account_id = "a1"; is_open = true; confirmed_balance = 100 })) s;
  routes = λ m o. none;
  requests = λ r. set_key (λ k. none) "r1" (some done_row) r;
  reservations =
      record { request_id = "r1"; session_id = "s1"; amount = 15; released = false } ∷ [];
  proposals = λ r. set_key (λ k. none) "r1" (some done_proposal) r;
  outbox = [];
}

-- The provider has had one receipt.
abbrev receipt_db : ReceiptDb
receipt_db = record {
  db = done_db;
  digests = λ r. some (record { input_hash = some 1; output_hash = some 2; completed_at = 9 });
  machines = λ m. some (record { account_id = "a2"; signer_address = "0xm"; revoked = false });
  wallets = λ a. some "0xw";
  offers = λ domain provider offer version model capability. some (record {
    input_per_million = "3000000";
    output_per_million = "7000000";
    compute_per_second = "1";
  });
  nonces = record { provider_address = "0xw"; nonce = 4; request_id = "r0" } ∷ [];
}

-- 3 for the input, 7 for the output and 1 for the second.
abbrev one_receipt : Receipt
one_receipt = record {
  request_id = 7;
  session_id = 7;
  customer = 8;
  provider = 8;
  settlement_signer = 8;
  offer_id = 170;
  price_version = 1;
  model_hash = 170;
  capability_hash = 170;
  input_tokens = 1;
  output_tokens = 1;
  compute_milliseconds = 1000;
  maximum_charge = 15;
  total_charge = 11;
  fee_basis_points = 500;
  fee_version = 1;
  status = 1;
  completed_at = 9;
  input_hash = 1;
  output_hash = 2;
  nonce = 5;
}

abbrev after_db : ReceiptDb
after_db = record receipt_db {
  db = record done_db {
    reservations =
        record { request_id = "r1"; session_id = "s1"; amount = 11; released = false } ∷ [];
  };
  nonces =
      record { provider_address = "0xw"; nonce = 5; request_id = "r1" }
      ∷ record { provider_address = "0xw"; nonce = 4; request_id = "r0" }
      ∷ [];
}

prepares :
    prepare_receipt plain_hex one_domain "r1" receipt_db ≡ ok (one_receipt, "m1", "0xm", after_db)
unfolding prepare_receipt join_receipt price_receipt reserve_receipt parse_hash read_hex set_amount
    take_nonce last_nonce validate exact_charge add_charges charge_part set_string read_nat
    read_digits
prepares = refl

prepared_receipt_example :
    (validate one_receipt ≡ none)
    × (11 ≤ 15)
    × (any (holds "r1" 11) after_db.db.reservations ≡ true)
    × (provider : String) × (rates : Rates) × (receipt_db.offers one_domain provider 170 1 170 170
        ≡ some rates)
    × (exact_charge 1 1 1000 rates.input_per_million rates.output_per_million
          rates.compute_per_second
        ≡ ok 11)
prepared_receipt_example =
    prepared_receipt plain_hex one_domain "r1" receipt_db one_receipt "m1" "0xm" after_db prepares

done_db-IsSolvent : IsSolvent done_db
unfolding locked
done_db-IsSolvent s row h = ground arith

-- A request that is not there is asked for in between.
prepares_again :
    prepare_receipt plain_hex one_domain "r1"
      (prepare_all plain_hex one_domain ("r9" ∷ []) after_db)
    ≡ ok (one_receipt, "m1", "0xm", after_db)
unfolding prepare_receipt join_receipt price_receipt reserve_receipt parse_hash read_hex set_amount
    take_nonce last_nonce exact_charge add_charges charge_part set_string read_nat read_digits
    prepare_all validate
prepares_again = refl

prepare-IsNonced_example :
    IsNonced plain_hex after_db.nonces
    × (one_receipt.nonce ≡ one_receipt.nonce)
    × Recorded plain_hex "r1" 5 after_db.nonces
prepare-IsNonced_example =
    prepare-IsNonced plain_hex one_domain "r1" receipt_db one_receipt "m1" "0xm" after_db
      ("r9" ∷ []) one_receipt "m1" "0xm" after_db (refl, refl, tt) prepares prepares_again

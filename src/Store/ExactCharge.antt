-- ===== src/Store/ExactCharge.antt =====
-- server/internal/store/receipt.go: `exactCharge`, the charge that a receipt carries.
use myference.Prelude.{ℕ, ◌+◌, ◌-◌, ◌*◌, ◌/◌, String, none, some, List, [], ◌∷◌, ltb, if◌then◌else◌}
use myference.Prelude.Words.{u64_mod}
use myference.Prelude.Int.{pos, negsuc}
use myference.Prelude.Decimal.{set_string}
use myference.Prelude.Result.{Result, ok, err}

pub data ReceiptError : Type 0 where
  invalid_receipt maximum_exceeded : ReceiptError

pub record ChargeItem : Type 0 where
  pub units : ℕ
  pub rate : String
  pub denominator : ℕ

-- One part of the charge; the denominator less one is added only to a positive product.
unfoldable pub charge_part : ℕ → ℕ → ℕ → ℕ
charge_part units rate denominator =
    let product = units * rate in
    (if ltb 0 product then product + (denominator - 1) else product) / denominator

unfoldable pub add_charges : ℕ → List ChargeItem → Result ReceiptError ℕ
unfolding charge_part
add_charges total [] = if ltb total u64_mod then ok total else err invalid_receipt
add_charges total (item ∷ items) = elim (set_string item.rate) [
  | none ↦ err invalid_receipt
  | some (negsuc _) ↦ err invalid_receipt
  | some (pos rate) ↦ add_charges (total + charge_part item.units rate item.denominator) items
]

unfoldable pub exact_charge : ℕ → ℕ → ℕ → String → String → String → Result ReceiptError ℕ
unfolding add_charges
exact_charge input_tokens output_tokens milliseconds input_rate output_rate compute_rate =
    add_charges 0 (
      record { units = input_tokens; rate = input_rate; denominator = 1000000 }
      ∷ record { units = output_tokens; rate = output_rate; denominator = 1000000 }
      ∷ record { units = milliseconds; rate = compute_rate; denominator = 1000 }
      ∷ [])

-- ===== src/Provider/Status/Earnings.antt =====
-- The earnings of a run: every receipt of a request after the first adds nothing.
use myference.Prelude.{
  ℕ, ◌+◌, ◌-◌, ◌*◌, ◌/◌, ◌≤◌, String, Bool, true, false, none, List, [], ◌∷◌, ◌≡◌, inl, inr, refl,
  ap, arith, Bool-cases, if◌then◌else◌,
}
use native.Mathlib.Nat.{mul-le-mul_left}
use myference.Prelude.Int.{pos}
use myference.Prelude.Decimal.{set_string, show_int, show_nat}
use myference.Prelude.Decimal.RoundTrip.{set_string-show_nat}
use myference.Protocol.Receipt.{Receipt}
use myference.Protocol.Receipt
use myference.Protocol.Messages.{ReceiptProposal}
use myference.Protocol.Chunks.{set_key}
use myference.Provider.Status.Calls.{
  StatusCall, started_call, completion_call, failed_call, receipt_call, health_call, connected_call,
  perform_status, run_status,
}
use myference.Provider.Status.{
  DaemonStatus, record_started, record_completion, record_failed, record_offer_health,
  set_connected, record_receipt, credit, earnings_of, or_zero,
}

-- The total of a receipt less its fee.
abbrev pub net : Receipt → ℕ
net r = r.total_charge - r.total_charge * r.fee_basis_points / 10000

-- The earnings that the first receipt of each request brings, of the calls in order; `seen` are the
-- requests that had one.
unfoldable pub first_earnings : (String → Bool) → List StatusCall → ℕ
first_earnings seen [] = 0
first_earnings seen (receipt_call now p ∷ cs) =
    if seen p.request_id
    then first_earnings seen cs
    else net p.receipt + first_earnings (set_key seen p.request_id true) cs
first_earnings seen (_ ∷ cs) = first_earnings seen cs

-- The receipts are valid.
abbrev pub ValidReceipts : List StatusCall → Type 0
ValidReceipts [] = Unit
ValidReceipts (receipt_call now p ∷ cs) = (Receipt.validate p.receipt ≡ none) × ValidReceipts cs
ValidReceipts (_ ∷ cs) = ValidReceipts cs

valid_fee : (r : Receipt) → Receipt.validate r ≡ none → r.fee_basis_points ≤ 1500
unfolding Receipt.validate
valid_fee r h = ground arith

fee_le : (t f : ℕ) → f ≤ 1500 → t * f / 10000 ≤ t
fee_le t f h = omega (arith, mul-le-mul_left t h)

-- The fee is at most the total, so the earnings are not negative.
valid_earnings : (r : Receipt) → Receipt.validate r ≡ none → earnings_of r ≡ pos (net r)
unfolding earnings_of
valid_earnings r h = ground (arith, valid_fee r h, fee_le r.total_charge r.fee_basis_points)

-- The run's earnings are the number `n`.
abbrev pub Earned : DaemonStatus → ℕ → Type 0
Earned d n = or_zero (set_string d.status.run_earnings_wei) ≡ pos n

receipt_again :
    (now : ℕ) (p : ReceiptProposal) (d : DaemonStatus) (n : ℕ)
    → d.earnings_recorded p.request_id ≡ true
    → Earned d n
    → Earned (record_receipt now p d) n
      × ((record_receipt now p d).earnings_recorded ≡ d.earnings_recorded)
unfolding record_receipt
receipt_again now p d n again h = (rw (again, credit) h, rw (again, credit) refl)

receipt_first :
    (now : ℕ) (p : ReceiptProposal) (d : DaemonStatus) (n : ℕ)
    → Receipt.validate p.receipt ≡ none
    → d.earnings_recorded p.request_id ≡ false
    → Earned d n
    → Earned (record_receipt now p d) (n + net p.receipt)
      × ((record_receipt now p d).earnings_recorded ≡ set_key d.earnings_recorded p.request_id true)
unfolding record_receipt show_int show_nat
receipt_first now p d n valid first h = (
  rw (first, credit, h, valid_earnings p.receipt valid)
      (ap or_zero (set_string-show_nat (n + net p.receipt))),
  rw (first, credit) refl,
)

-- Through any calls whose receipts are valid, the earnings of the run grow by the sum, over the
-- requests that had no receipt before, of the total less the fee of the first receipt of each: a
-- receipt that is sent again is not counted twice.
pub run_earnings :
    (d : DaemonStatus) (cs : List StatusCall) (n : ℕ)
    → ValidReceipts cs
    → Earned d n
    → Earned (run_status d cs) (n + first_earnings d.earnings_recorded cs)
unfolding run_status perform_status record_started record_completion record_failed
    record_offer_health set_connected first_earnings
run_earnings d [] n v h = ground (arith, h)
run_earnings d (started_call now r o m ∷ cs) n v h =
    run_earnings (record_started now r o m d) cs n v h
run_earnings d (completion_call now r o usage ∷ cs) n v h =
    run_earnings (record_completion now r o usage d) cs n v h
run_earnings d (failed_call now r message ∷ cs) n v h =
    run_earnings (record_failed now r message d) cs n v h
run_earnings d (health_call now o healthy message ∷ cs) n v h =
    run_earnings (record_offer_health now o healthy message d) cs n v h
run_earnings d (connected_call now c ∷ cs) n v h = run_earnings (set_connected now c d) cs n v h
run_earnings d (receipt_call now p ∷ cs) n (valid, v) h =
    elim (Bool-cases (d.earnings_recorded p.request_id)) [
      | inl again ↦
          let (same, kept) = receipt_again now p d n again h in
          ground (arith, run_earnings (record_receipt now p d) cs n v same, kept)
      | inr first ↦
          let (more, marked) = receipt_first now p d n valid first h in
          ground (arith, run_earnings (record_receipt now p d) cs _ v more, marked)
    ]

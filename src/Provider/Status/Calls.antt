-- ===== src/Provider/Status/Calls.antt =====
-- The calls that change the daemon's status, in any order.
use myference.Prelude.{ℕ, String, Bool, List, [], ◌∷◌}
use myference.Protocol.Messages.{ReceiptProposal}
use myference.Provider.Status.{
  DaemonStatus, Usage, record_started, record_completion, record_failed, record_receipt,
  record_offer_health, set_connected,
}

pub data StatusCall : Type 0 where
  started_call : ℕ → String → String → String → StatusCall
  completion_call : ℕ → String → String → Usage → StatusCall
  failed_call : ℕ → String → String → StatusCall
  receipt_call : ℕ → ReceiptProposal → StatusCall
  health_call : ℕ → String → Bool → String → StatusCall
  connected_call : ℕ → Bool → StatusCall

unfoldable pub perform_status : DaemonStatus → StatusCall → DaemonStatus
perform_status d (started_call now r o m) = record_started now r o m d
perform_status d (completion_call now r o usage) = record_completion now r o usage d
perform_status d (failed_call now r message) = record_failed now r message d
perform_status d (receipt_call now p) = record_receipt now p d
perform_status d (health_call now o healthy message) = record_offer_health now o healthy message d
perform_status d (connected_call now c) = set_connected now c d

unfoldable pub run_status : DaemonStatus → List StatusCall → DaemonStatus
run_status d [] = d
run_status d (c ∷ cs) = run_status (perform_status d c) cs

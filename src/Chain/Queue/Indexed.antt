-- ===== src/Chain/Queue/Indexed.antt =====
-- What the indexer does to the settlement queue: applyLog of server/internal/chain/indexer.go.
use myference.Prelude.{
  ℕ, String, List, [], ◌∷◌, ◌≡◌, refl, any, arith, ◌==◌, Bool-cases, Option, none, some,
  Option-cases, inl, inr,
}
use myference.Prelude.Result.{Result, ok, Result-cases}
use myference.Store.Tables.{Db}
use myference.Chain.Ledger.{
  Log, LedgerError, deposited, withdrawal_requested, claimed, bond_deposited, provider_signer_set,
  bond_exit_requested, bond_exit_finalized, offer_published, session_opened,
  session_close_requested, session_closed, receipt_settled, provider_slashed, other_event,
  ChainEvent,
}
use myference.Chain.Updates.{settlement_row, slash_row, slash_ledger}
use myference.Chain.Indexing.{
  Index, on_ledger, apply_event, index_log, index_logs, same_log, open_local,
}
use myference.Chain.Indexing.Refinement.{ok_injective}
use myference.Chain.Queue.Agreement.{IsAgreed, settlement-IsAgreed}

same_queue :
    (s t s' : Index)
    → IsAgreed s
    → ◌≡◌ {A = Result LedgerError Index} (ok t) (ok s')
    → t.db.requests ≡ s.db.requests
    → t.queue ≡ s.queue
    → IsAgreed s'
same_queue s t s' k h requests queue = let e : s' ≡ t = ok_injective h in rw (e, requests, queue) k

open_local-requests :
    (id : String) (account : Option String) (n : ℕ) (db : Db)
    → (open_local id account n db).requests ≡ db.requests
open_local-requests id none n db = refl
open_local-requests id (some account) n db = refl

module _ (fee_recipient : String) where
  apply_event-IsAgreed :
      (log : Log) (e : ChainEvent) (s s' : Index)
      → IsAgreed s
      → apply_event fee_recipient log e s ≡ ok s'
      → IsAgreed s'
  unfolding apply_event
  apply_event-IsAgreed log (deposited a x) s s' k h = same_queue s _ s' k h refl refl
  apply_event-IsAgreed log (withdrawal_requested a x) s s' k h = same_queue s _ s' k h refl refl
  apply_event-IsAgreed log (claimed a x) s s' k h = same_queue s _ s' k h refl refl
  apply_event-IsAgreed log (bond_deposited a x) s s' k h = same_queue s _ s' k h refl refl
  apply_event-IsAgreed log (provider_signer_set p q b) s s' k h = same_queue s _ s' k h refl refl
  apply_event-IsAgreed log (bond_exit_requested p t) s s' k h = same_queue s _ s' k h refl refl
  apply_event-IsAgreed log (bond_exit_finalized p x) s s' k h = same_queue s _ s' k h refl refl
  apply_event-IsAgreed log (offer_published p o v row) s s' k h = same_queue s _ s' k h refl refl
  apply_event-IsAgreed log (session_opened session customer n t) s s' k h =
      same_queue s _ s' k h (open_local-requests session (s.wallets customer) n s.db) refl
  apply_event-IsAgreed log (session_close_requested session t) s s' k h =
      same_queue s _ s' k h refl refl
  apply_event-IsAgreed log (session_closed session n) s s' k h =
      elim (Option-cases (s.ledger.sessions session)) [
        | inl missing ↦ absurd (ground arith)
        | inr (row, found) ↦ same_queue s _ s' k (rw found at h) refl refl
      ]
  apply_event-IsAgreed log (receipt_settled q session p n fee) s s' k h =
      settlement-IsAgreed fee_recipient (settlement_row log q session p n fee) s s' k h
  apply_event-IsAgreed log (provider_slashed q p n) s s' k h = elim (Bool-cases (n == 0)) [
    | inl zero_amount ↦ absurd (ground arith)
    | inr some_amount ↦
        same_queue s (on_ledger (slash_ledger fee_recipient (slash_row log q p n)) s) s' k
          (ground arith) refl refl
  ]
  apply_event-IsAgreed log other_event s s' k h = same_queue s _ s' k h refl refl

  index_log-IsAgreed :
      (log : Log) (s s' : Index) → IsAgreed s → index_log fee_recipient log s ≡ ok s' → IsAgreed s'
  unfolding index_log
  index_log-IsAgreed log s s' k h = elim (Bool-cases (any (same_log log) s.logs)) [
    | inl old ↦ let e : s' ≡ s = ground arith in rw e k
    | inr new ↦ elim (Option-cases log.event) [
      | inl undecodable ↦ absurd (ground arith)
      | inr (e, decoded) ↦
          apply_event-IsAgreed log e (record s { logs = log ∷ s.logs }) s' k (ground arith)
    ]
  ]

  pub index_logs-IsAgreed :
      (logs : List Log) (s s' : Index)
      → IsAgreed s
      → index_logs fee_recipient logs s ≡ ok s'
      → IsAgreed s'
  unfolding index_logs
  index_logs-IsAgreed [] s s' k h = let e : s' ≡ s = ground arith in rw e k
  index_logs-IsAgreed (log ∷ rest) s s' k h = elim (Result-cases (index_log fee_recipient log s)) [
    | inr (bad, failed) ↦ absurd (ground arith)
    | inl (next, fine) ↦
        index_logs-IsAgreed rest next s' (index_log-IsAgreed log s next k fine) (ground arith)
  ]

-- ===== src/Chain/Indexing/Duplicates.antt =====
-- A log is counted once, however often the node gives it.
use myference.Prelude.{
  String, true, List, [], ◌∷◌, ◌≡◌, refl, any, arith, Bool-cases, Option-cases, inl, inr, eq_iff,
  if◌then◌else◌, All,
}
use myference.Prelude.Result.{ok, Result-cases}
use myference.Chain.Ledger.{Log}
use myference.Chain.Indexing.{Index, same_log, index_log, index_logs}
use myference.Chain.Indexing.Refinement.{apply_event-Untouched}

-- The log was counted.
abbrev IsSeen : Index → Log → Type 0
IsSeen s log = any (same_log log) s.logs ≡ true

module _ (fee_recipient : String) where
  index_log-logs :
      (log : Log) (s s' : Index)
      → index_log fee_recipient log s ≡ ok s'
      → s'.logs ≡ (if any (same_log log) s.logs then s.logs else log ∷ s.logs)
  unfolding index_log
  index_log-logs log s s' h = elim (Bool-cases (any (same_log log) s.logs)) [
    | inl old ↦ ground arith
    | inr new ↦ elim (Option-cases log.event) [
      | inl undecodable ↦ absurd (ground arith)
      | inr (e, decoded) ↦
          let next = record s { logs = log ∷ s.logs } in
          ground (arith, (apply_event-Untouched fee_recipient log e next s' (ground arith)).logs)
    ]
  ]

  index_logs-IsSeen :
      (logs : List Log) (s s' : Index)
      → index_logs fee_recipient logs s ≡ ok s'
      → ((x : Log) → IsSeen s x → IsSeen s' x) × All (IsSeen s') logs
  unfolding index_logs
  index_logs-IsSeen [] s s' h = (λ x k. ground arith, tt)
  index_logs-IsSeen (log ∷ rest) s s' h = elim (Result-cases (index_log fee_recipient log s)) [
    | inr (bad, failed) ↦ absurd (ground arith)
    | inl (next, fine) ↦
        let more = index_logs-IsSeen rest next s' (ground arith) in
        let e = index_log-logs log s next fine in
        let here : IsSeen next log =
          ground (arith, e, eq_iff log.transaction_hash log.transaction_hash) in
        (λ x k. more.0 x (ground (arith, e)), (more.0 log here, more.1))
  ]

  seen_again :
      (logs : List Log) (s : Index) → All (IsSeen s) logs → index_logs fee_recipient logs s ≡ ok s
  unfolding index_logs index_log
  seen_again [] s k = refl
  seen_again (log ∷ rest) s (here, k) = ground (arith, seen_again rest s k)

  -- Logs that were indexed are indexed again without an effect, each of them known.
  pub index_logs_again :
      (logs : List Log) (s s' : Index)
      → index_logs fee_recipient logs s ≡ ok s'
      → index_logs fee_recipient logs s' ≡ ok s'
  index_logs_again logs s s' h = seen_again logs s' (index_logs-IsSeen logs s s' h).1

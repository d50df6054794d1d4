-- ===== src/Chain/Indexing/Released.antt =====
-- A receipt that was settled on the chain holds no funds of the store.
use myference.Prelude.{
  String, Bool, true, false, ◌||◌, List, [], ◌∷◌, ◌≡◌, refl, str_eq, eq_iff, any, arith, ◌==◌,
  Bool-cases, Option-cases, inl, inr, if◌then◌else◌,
}
use myference.Prelude.Result.{Result, ok, Result-cases}
use myference.Store.Tables.{ReservationRow}
use myference.Store.Inference.{release, is_live}
use myference.Chain.Ledger.{
  SettlementRow, Log, LedgerError, deposited, withdrawal_requested, claimed, bond_deposited,
  provider_signer_set, bond_exit_requested, bond_exit_finalized, offer_published, session_opened,
  session_close_requested, session_closed, receipt_settled, provider_slashed, other_event,
  ChainEvent,
}
use myference.Chain.Updates.{is_settled, settlement_row, slash_row, slash_ledger}
use myference.Chain.Indexing.{
  Index, on_ledger, apply_settlement, apply_event, write_settlement, index_log, index_logs,
  same_log,
}
use myference.Chain.Indexing.Refinement.{open_local-reservations, ok_injective}
use myference.Chain.Indexing.Settlements.{settle_local-writes}

abbrev has_live : String → List ReservationRow → Bool
has_live id rows = any (is_live id) rows

-- No request that is settled has a reservation that is open.
abbrev pub IsReleased : Index → Type 0
IsReleased s =
    (id : String)
    → any (is_settled id) s.ledger.settlements ≡ true
    → any (is_live id) s.db.reservations ≡ false

has_live-release :
    (id r : String) (rows : List ReservationRow)
    → has_live id (release r rows) ≡ (if str_eq r id then false else has_live id rows)
unfolding release
has_live-release id r [] = ground arith
has_live-release id r (x ∷ rows) =
    ground (
      arith,
      has_live-release id r rows,
      eq_iff r id,
      eq_iff x.request_id r,
      eq_iff x.request_id id,
    )

-- A result with the settlements and the reservations as they were.
same_funds :
    (s t s' : Index)
    → IsReleased s
    → ◌≡◌ {A = Result LedgerError Index} (ok t) (ok s')
    → t.ledger.settlements ≡ s.ledger.settlements
    → t.db.reservations ≡ s.db.reservations
    → IsReleased s'
same_funds s t s' released h settlements reservations id there =
    let e : s' ≡ t = ok_injective h in ground (arith, e, released id, settlements, reservations)

module _ (fee_recipient : String) where
  apply_settlement-IsReleased :
      (row : SettlementRow) (s s' : Index)
      → IsReleased s
      → apply_settlement fee_recipient row s ≡ ok s'
      → IsReleased s'
  apply_settlement-IsReleased row s s' released h id there =
      elim (Bool-cases (any (is_settled row.request_id) s.ledger.settlements)) [
        | inl old ↦ let e : s' ≡ s = ground arith in ground (arith, e, released id)
        | inr new ↦
            let e : s' ≡ write_settlement fee_recipient row s = ground arith in
            let rows = (settle_local-writes row s.db).1 in
            let freed = has_live-release id row.request_id s.db.reservations in
            let found : (is_settled id row || any (is_settled id) s.ledger.settlements) ≡ true =
              ground (arith, e) in
            ground (arith, e, rows, freed, found, released id)
      ]

  apply_event-IsReleased :
      (log : Log) (e : ChainEvent) (s s' : Index)
      → IsReleased s
      → apply_event fee_recipient log e s ≡ ok s'
      → IsReleased s'
  unfolding apply_event
  apply_event-IsReleased log (deposited a x) s s' r h = same_funds s _ s' r h refl refl
  apply_event-IsReleased log (withdrawal_requested a x) s s' r h = same_funds s _ s' r h refl refl
  apply_event-IsReleased log (claimed a x) s s' r h = same_funds s _ s' r h refl refl
  apply_event-IsReleased log (bond_deposited a x) s s' r h = same_funds s _ s' r h refl refl
  apply_event-IsReleased log (provider_signer_set p q b) s s' r h = same_funds s _ s' r h refl refl
  apply_event-IsReleased log (bond_exit_requested p t) s s' r h = same_funds s _ s' r h refl refl
  apply_event-IsReleased log (bond_exit_finalized p x) s s' r h = same_funds s _ s' r h refl refl
  apply_event-IsReleased log (offer_published p o v row) s s' r h = same_funds s _ s' r h refl refl
  apply_event-IsReleased log (session_opened session customer n t) s s' r h =
      same_funds s _ s' r h refl (open_local-reservations session (s.wallets customer) n s.db)
  apply_event-IsReleased log (session_close_requested session t) s s' r h =
      same_funds s _ s' r h refl refl
  apply_event-IsReleased log (session_closed session n) s s' r h =
      elim (Option-cases (s.ledger.sessions session)) [
        | inl missing ↦ absurd (ground arith)
        | inr (row, found) ↦ same_funds s _ s' r (rw found at h) refl refl
      ]
  apply_event-IsReleased log (receipt_settled q session p n fee) s s' r h =
      apply_settlement-IsReleased (settlement_row log q session p n fee) s s' r h
  apply_event-IsReleased log (provider_slashed q p n) s s' r h = elim (Bool-cases (n == 0)) [
    | inl zero_amount ↦ absurd (ground arith)
    | inr some_amount ↦
        same_funds s (on_ledger (slash_ledger fee_recipient (slash_row log q p n)) s) s' r
          (ground arith) (ground arith) refl
  ]
  apply_event-IsReleased log other_event s s' r h = same_funds s _ s' r h refl refl

  index_log-IsReleased :
      (log : Log) (s s' : Index)
      → IsReleased s
      → index_log fee_recipient log s ≡ ok s'
      → IsReleased s'
  unfolding index_log
  index_log-IsReleased log s s' r h = elim (Bool-cases (any (same_log log) s.logs)) [
    | inl old ↦ let e : s' ≡ s = ground arith in rw e r
    | inr new ↦ elim (Option-cases log.event) [
      | inl undecodable ↦ absurd (ground arith)
      | inr (e, decoded) ↦
          apply_event-IsReleased log e (record s { logs = log ∷ s.logs }) s' r (ground arith)
    ]
  ]

  -- If no settled request has an open reservation, it stays so when logs are indexed without an
  -- error.
  pub index_logs-IsReleased :
      (logs : List Log) (s s' : Index)
      → IsReleased s
      → index_logs fee_recipient logs s ≡ ok s'
      → IsReleased s'
  unfolding index_logs
  index_logs-IsReleased [] s s' r h = let e : s' ≡ s = ground arith in rw e r
  index_logs-IsReleased (log ∷ rest) s s' r h =
      elim (Result-cases (index_log fee_recipient log s)) [
        | inr (bad, failed) ↦ absurd (ground arith)
        | inl (next, fine) ↦
            index_logs-IsReleased rest next s' (index_log-IsReleased log s next r fine)
              (ground arith)
      ]

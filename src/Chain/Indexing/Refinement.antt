-- ===== src/Chain/Indexing/Refinement.antt =====
-- The tables of the indexer are the ledger that the logs give.
use myference.Prelude.{
  ℕ, String, Bool, Option, none, some, List, [], ◌∷◌, ◌≡◌, refl, any, find?, arith, ◌==◌,
  Bool-cases, Option-cases, inl, inr,
}
use myference.Prelude.Result.{Result, ok, Result-cases}
use myference.Store.Tables.{Status, ReservationRow, RequestRow, Db}
use myference.Store.Inference.{release}
use myference.Chain.Ledger.{
  SettlementRow, ChainEvent, deposited, withdrawal_requested, claimed, bond_deposited,
  provider_signer_set, bond_exit_requested, bond_exit_finalized, offer_published, session_opened,
  session_close_requested, session_closed, receipt_settled, provider_slashed, other_event, Log,
  LedgerError,
}
use myference.Chain.Updates.{is_settled, slash_ledger, settlement_row, slash_row}
use myference.Chain.Indexing.{
  Index, on_ledger, move_row, held, held_amount, is_request, settle_local, open_local,
  write_settlement, apply_settlement, apply_event, same_log, index_log, index_logs,
}
use myference.Chain.Indexing.Replay.{view, view_of, ledger_of, replay_event, replay_log, replay}

find-release :
    (id r : String) (rows : List ReservationRow)
    → held_amount (find? (is_request id) (release r rows))
      ≡ held_amount (find? (is_request id) rows)
unfolding release
find-release id r [] = refl
find-release id r (x ∷ rows) = ground (arith, find-release id r rows)

pub move_row-reservations :
    (id : String) (test : Status → Bool) (from to : Status) (row : Option RequestRow) (db : Db)
    → (move_row id test from to row db).reservations ≡ db.reservations
move_row-reservations id test from to none db = refl
move_row-reservations id test from to (some row) db = ground arith

pub open_local-reservations :
    (id : String) (account : Option String) (n : ℕ) (db : Db)
    → (open_local id account n db).reservations ≡ db.reservations
open_local-reservations id none n db = refl
open_local-reservations id (some account) n db = refl

held-settle_local :
    (row : SettlementRow) (db : Db) (id : String) → held (settle_local row db) id ≡ held db id
held-settle_local row db id =
    rw (move_row-reservations row.request_id _ _ _ _ _)
      (find-release id row.request_id db.reservations)

pub ok_injective : {a b : Index} → ◌≡◌ {A = Result LedgerError Index} (ok a) (ok b) → b ≡ a
ok_injective h = ground arith

-- What an event leaves alone: the logs, and what is reserved for every request.
pub record Untouched (s s' : Index) : Type 0 where
  pub logs : s'.logs ≡ s.logs
  pub amounts : (id : String) → held s'.db id ≡ held s.db id

ledger_only :
    (s t s' : Index)
    → ◌≡◌ {A = Result LedgerError Index} (ok t) (ok s')
    → t.logs ≡ s.logs
    → t.db ≡ s.db
    → Untouched s s'
ledger_only s t s' h logs same =
    let e : s' ≡ t = ok_injective h in
    record { logs = ground (arith, e, logs); amounts = λ id. ground (arith, e, same) }

module _ (fee_recipient : String) where
  apply_settlement-Untouched :
      (row : SettlementRow) (s s' : Index)
      → apply_settlement fee_recipient row s ≡ ok s'
      → Untouched s s'
  apply_settlement-Untouched row s s' h =
      elim (Bool-cases (any (is_settled row.request_id) s.ledger.settlements)) [
        | inl old ↦ let e : s' ≡ s = ground arith in ledger_only s s s' (rw e refl) refl refl
        | inr new ↦
            let e : s' ≡ write_settlement fee_recipient row s = ground arith in
            rw e (record { logs = refl; amounts = held-settle_local row s.db })
      ]

  pub apply_event-Untouched :
      (log : Log) (e : ChainEvent) (s s' : Index)
      → apply_event fee_recipient log e s ≡ ok s'
      → Untouched s s'
  unfolding apply_event
  apply_event-Untouched log (deposited a x) s s' h = ledger_only s _ s' h refl refl
  apply_event-Untouched log (withdrawal_requested a x) s s' h = ledger_only s _ s' h refl refl
  apply_event-Untouched log (claimed a x) s s' h = ledger_only s _ s' h refl refl
  apply_event-Untouched log (bond_deposited a x) s s' h = ledger_only s _ s' h refl refl
  apply_event-Untouched log (provider_signer_set p q b) s s' h = ledger_only s _ s' h refl refl
  apply_event-Untouched log (bond_exit_requested p t) s s' h = ledger_only s _ s' h refl refl
  apply_event-Untouched log (bond_exit_finalized p x) s s' h = ledger_only s _ s' h refl refl
  apply_event-Untouched log (offer_published p o v row) s s' h = ledger_only s _ s' h refl refl
  apply_event-Untouched log (session_opened session customer n t) s s' h =
      rw (ok_injective h) (record {
        logs = refl;
        amounts = λ id. rw (open_local-reservations session (s.wallets customer) n s.db) refl;
      })
  apply_event-Untouched log (session_close_requested session t) s s' h =
      rw (ok_injective h) (record { logs = refl; amounts = λ id. refl })
  apply_event-Untouched log (session_closed session n) s s' h =
      elim (Option-cases (s.ledger.sessions session)) [
        | inl missing ↦ absurd (ground arith)
        | inr (row, found) ↦
            let e : s' ≡ _ = ok_injective (rw found at h) in
            rw e (record { logs = refl; amounts = λ id. refl })
      ]
  apply_event-Untouched log (receipt_settled r session p n fee) s s' h =
      apply_settlement-Untouched (settlement_row log r session p n fee) s s' h
  apply_event-Untouched log (provider_slashed r p n) s s' h = elim (Bool-cases (n == 0)) [
    | inl zero_amount ↦ absurd (ground arith)
    | inr some_amount ↦
        ledger_only s (on_ledger (slash_ledger fee_recipient (slash_row log r p n)) s) s'
          (ground arith) refl refl
  ]
  apply_event-Untouched log other_event s s' h = ledger_only s _ s' h refl refl

  module _ (reserved : String → Option ℕ) where
    apply_event-replay :
        (log : Log) (e : ChainEvent) (s : Index)
        → ((id : String) → held s.db id ≡ reserved id)
        → ledger_of (apply_event fee_recipient log e s)
          ≡ replay_event fee_recipient reserved log e s.ledger
    unfolding apply_event replay_event
    apply_event-replay log (deposited a x) s same = refl
    apply_event-replay log (withdrawal_requested a x) s same = refl
    apply_event-replay log (claimed a x) s same = refl
    apply_event-replay log (bond_deposited a x) s same = refl
    apply_event-replay log (provider_signer_set p q b) s same = refl
    apply_event-replay log (bond_exit_requested p t) s same = refl
    apply_event-replay log (bond_exit_finalized p x) s same = refl
    apply_event-replay log (offer_published p o v row) s same = refl
    apply_event-replay log (session_opened session customer n t) s same = refl
    apply_event-replay log (session_close_requested session t) s same = refl
    apply_event-replay log (session_closed session n) s same =
        elim (Option-cases (s.ledger.sessions session)) [
          | inl missing ↦ rw missing refl
          | inr (row, found) ↦ rw found refl
        ]
    apply_event-replay log (receipt_settled r session p n fee) s same = ground (arith, same r)
    apply_event-replay log (provider_slashed r p n) s same = ground arith
    apply_event-replay log other_event s same = refl

    index_log-replay :
        (log : Log) (s : Index)
        → ((id : String) → held s.db id ≡ reserved id)
        → view_of (index_log fee_recipient log s) ≡ replay_log fee_recipient reserved log (view s)
    unfolding index_log replay_log
    index_log-replay log s same = elim (Bool-cases (any (same_log log) s.logs)) [
      | inl old ↦ rw old refl
      | inr new ↦ elim (Option-cases log.event) [
        | inl undecodable ↦ rw (new, undecodable) refl
        | inr (e, decoded) ↦
            let next = record s { logs = log ∷ s.logs } in
            let same_ledger = apply_event-replay log e next same in
            elim (Result-cases (apply_event fee_recipient log e next)) [
              | inl (s', fine) ↦
                  ground (arith, same_ledger, (apply_event-Untouched log e next s' fine).logs)
              | inr (bad, failed) ↦ ground (arith, same_ledger)
            ]
      ]
    ]

    index_log-held :
        (log : Log) (s s' : Index)
        → ((id : String) → held s.db id ≡ reserved id)
        → index_log fee_recipient log s ≡ ok s'
        → (id : String) → held s'.db id ≡ reserved id
    unfolding index_log
    index_log-held log s s' same h id = elim (Bool-cases (any (same_log log) s.logs)) [
      | inl old ↦ ground (arith, same id)
      | inr new ↦ elim (Option-cases log.event) [
        | inl undecodable ↦ absurd (ground arith)
        | inr (e, decoded) ↦
            let next = record s { logs = log ∷ s.logs } in
            let kept = apply_event-Untouched log e next s' (ground arith) in
            ground (arith, kept.amounts id, same id)
      ]
    ]

    -- Indexing logs shows what their replay on what was seen before gives, errors included: a log
    -- that was seen counts no more, and nothing of the store matters but what is reserved.
    pub index_logs-replay :
        (logs : List Log) (s : Index)
        → ((id : String) → held s.db id ≡ reserved id)
        → view_of (index_logs fee_recipient logs s) ≡ replay fee_recipient reserved logs (view s)
    unfolding index_logs replay
    index_logs-replay [] s same = refl
    index_logs-replay (log ∷ rest) s same =
        let first = index_log-replay log s same in
        elim (Result-cases (index_log fee_recipient log s)) [
          | inl (s', fine) ↦
              let more = index_logs-replay rest s' (index_log-held log s s' same fine) in
              ground (arith, first, more)
          | inr (bad, failed) ↦ ground (arith, first)
        ]

    pub index_logs-held :
        (logs : List Log) (s s' : Index)
        → ((id : String) → held s.db id ≡ reserved id)
        → index_logs fee_recipient logs s ≡ ok s'
        → (id : String) → held s'.db id ≡ reserved id
    unfolding index_logs
    index_logs-held [] s s' same h id = ground (arith, same id)
    index_logs-held (log ∷ rest) s s' same h id =
        elim (Result-cases (index_log fee_recipient log s)) [
          | inl (next, fine) ↦
              index_logs-held rest next s' (index_log-held log s next same fine) (ground arith) id
          | inr (bad, failed) ↦ absurd (ground arith)
        ]

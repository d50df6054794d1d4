-- ===== src/Chain/Indexing/Replay.antt =====
-- The ledger as the logs of the contract alone give it.
use myference.Prelude.{ℕ, ◌+◌, String, Option, none, some, List, [], ◌∷◌, any, ◌==◌, if◌then◌else◌}
use myference.Prelude.Int.{pos, neg}
use myference.Prelude.Result.{Result, ok, err, ◌>>=◌}
use myference.Chain.Ledger.{
  ChainSessionRow, SettlementRow, ChainEvent, deposited, withdrawal_requested, claimed,
  bond_deposited, provider_signer_set, bond_exit_requested, bond_exit_finalized, offer_published,
  session_opened, session_close_requested, session_closed, receipt_settled, provider_slashed,
  other_event, Log, LedgerError, undecodable_log, reservation_mismatch, no_session, constraint,
  Ledger,
}
use myference.Chain.Updates.{
  upsert_account, update_account, update_session, add_balance, add_claimable, withdraw_balance,
  set_bond, set_bond_exit, exit_bond, set_close, is_settled, settle_ledger, close_ledger,
  slash_ledger, open_ledger, publish_offer, set_signer, settlement_row, slash_row, session_row,
}
use myference.Chain.Indexing.{Index, mismatched, same_log}

-- What is seen of the chain: the logs that were counted, and the ledger.
pub record View : Type 0 where
  pub seen : List Log
  pub ledger : Ledger

abbrev pub view : Index → View
view s = record { seen = s.logs; ledger = s.ledger }

abbrev pub view_of : Result LedgerError Index → Result LedgerError View
view_of (ok s) = ok (view s)
view_of (err e) = err e

abbrev pub ledger_of : Result LedgerError Index → Result LedgerError Ledger
ledger_of (ok s) = ok s.ledger
ledger_of (err e) = err e

abbrev pub replay_settlement :
    String → Option ℕ → SettlementRow → Ledger → Result LedgerError Ledger
replay_settlement fee_recipient reserved row l =
    if mismatched reserved (row.provider_amount + row.fee_amount)
    then err reservation_mismatch
    else if any (is_settled row.request_id) l.settlements
    then ok l
    else ok (settle_ledger fee_recipient row l)

abbrev pub replay_close : String → ℕ → Option ChainSessionRow → Ledger → Result LedgerError Ledger
replay_close id returned none l = err no_session
replay_close id returned (some row) l = ok (close_ledger id returned row l)

-- The ledger that a list of logs gives, of which each counts once. Beside the ledger it depends on
-- nothing but what is reserved for a request.
module _ (fee_recipient : String) (reserved : String → Option ℕ) where
  unfoldable pub replay_event : Log → ChainEvent → Ledger → Result LedgerError Ledger
  replay_event log (deposited customer amount) l =
      ok (upsert_account customer (add_balance (pos amount)) l)
  replay_event log (withdrawal_requested account amount) l =
      ok (update_account account (withdraw_balance amount) l)
  replay_event log (claimed account amount) l =
      ok (update_account account (add_claimable (neg amount)) l)
  replay_event log (bond_deposited provider total) l =
      ok (upsert_account provider (set_bond total) l)
  replay_event log (provider_signer_set provider signer allowed) l =
      ok (set_signer provider signer allowed l)
  replay_event log (bond_exit_requested provider available_at) l =
      ok (update_account provider (set_bond_exit available_at) l)
  replay_event log (bond_exit_finalized provider amount) l =
      ok (update_account provider (exit_bond amount) l)
  replay_event log (offer_published provider offer version row) l =
      ok (publish_offer provider offer version row l)
  replay_event log (session_opened session customer allowance expires_at) l =
      ok (open_ledger session (session_row customer allowance expires_at) l)
  replay_event log (session_close_requested session available_at) l =
      ok (update_session session (set_close available_at) l)
  replay_event log (session_closed session returned) l =
      replay_close session returned (l.sessions session) l
  replay_event log (receipt_settled request session provider amount fee) l =
      replay_settlement fee_recipient (reserved request)
        (settlement_row log request session provider amount fee) l
  replay_event log (provider_slashed request provider amount) l =
      if amount == 0
      then err constraint
      else ok (slash_ledger fee_recipient (slash_row log request provider amount) l)
  replay_event log other_event l = ok l

  abbrev pub replay_decoded : Log → Option ChainEvent → Ledger → Result LedgerError Ledger
  replay_decoded log none l = err undecodable_log
  replay_decoded log (some event) l = replay_event log event l

  unfoldable pub replay_log : Log → View → Result LedgerError View
  unfolding replay_event
  replay_log log v =
      if any (same_log log) v.seen
      then ok v
      else replay_decoded log log.event v.ledger >>= λ l.
          ok (record { seen = log ∷ v.seen; ledger = l })

  unfoldable pub replay : List Log → View → Result LedgerError View
  unfolding replay_log
  replay [] v = ok v
  replay (log ∷ rest) v = replay_log log v >>= λ next. replay rest next

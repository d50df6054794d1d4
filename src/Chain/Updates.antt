-- ===== src/Chain/Updates.antt =====
-- server/internal/chain/indexer.go: what each event of the contract makes of the ledger.
use myference.Prelude.{
  ℕ, ◌+◌, String, Bool, true, false, ◌&&◌, Option, none, some, ◌∷◌, str_eq, any, ◌==◌,
  if◌then◌else◌,
}
use myference.Prelude.Int.{ℤ, pos, negsuc, neg, ◌+ℤ◌}
use myference.Protocol.Chunks.{set_key}
use myference.Chain.Ledger.{
  AccountRow, OfferRow, ChainSessionRow, SettlementRow, SlashRow, Log, Ledger,
}

-- The columns' defaults.
abbrev pub new_account : AccountRow
new_account = record {
  customer_balance = pos 0;
  provider_bond = pos 0;
  claimable = pos 0;
  bond_exit_available_at = 0;
}

abbrev pub or_new : Option AccountRow → AccountRow
or_new none = new_account
or_new (some row) = row

abbrev pub change {ℓ} : {A : Type ℓ} → (A → A) → Option A → Option A
change f none = none
change f (some a) = some (f a)

-- INSERT INTO chain_accounts … ON CONFLICT DO UPDATE
abbrev pub upsert_account : String → (AccountRow → AccountRow) → Ledger → Ledger
upsert_account address f l = record l {
  accounts = set_key l.accounts address (some (f (or_new (l.accounts address))));
}

-- UPDATE chain_accounts SET … WHERE address=…
abbrev pub update_account : String → (AccountRow → AccountRow) → Ledger → Ledger
update_account address f l = record l {
  accounts = set_key l.accounts address (change f (l.accounts address));
}

-- UPDATE chain_sessions SET … WHERE session_id=…
abbrev pub update_session : String → (ChainSessionRow → ChainSessionRow) → Ledger → Ledger
update_session id f l = record l { sessions = set_key l.sessions id (change f (l.sessions id)) }

abbrev pub is_zero_int : ℤ → Bool
is_zero_int (pos n) = n == 0
is_zero_int (negsuc n) = false

-- The new values of a column.
abbrev pub add_balance : ℤ → AccountRow → AccountRow
add_balance x row = record row { customer_balance = row.customer_balance +ℤ x }

abbrev pub add_claimable : ℤ → AccountRow → AccountRow
add_claimable x row = record row { claimable = row.claimable +ℤ x }

abbrev pub withdraw_balance : ℕ → AccountRow → AccountRow
withdraw_balance amount row = record row {
  customer_balance = row.customer_balance +ℤ neg amount;
  claimable = row.claimable +ℤ pos amount;
}

abbrev pub set_bond : ℕ → AccountRow → AccountRow
set_bond total row = record row { provider_bond = pos total }

abbrev pub set_bond_exit : ℕ → AccountRow → AccountRow
set_bond_exit available_at row = record row { bond_exit_available_at = available_at }

abbrev pub exit_bond : ℕ → AccountRow → AccountRow
exit_bond amount row = record row {
  provider_bond = pos 0;
  bond_exit_available_at = 0;
  claimable = row.claimable +ℤ pos amount;
}

abbrev pub set_close : ℕ → ChainSessionRow → ChainSessionRow
set_close available_at row = record row { close_available_at = available_at }

abbrev pub slash_bond : ℕ → AccountRow → AccountRow
slash_bond amount row =
    let bond = row.provider_bond +ℤ neg amount in
    record row {
      provider_bond = bond;
      bond_exit_available_at = if is_zero_int bond then 0 else row.bond_exit_available_at;
    }

abbrev pub or_first {ℓ} : {A : Type ℓ} → Option A → A → A
or_first none a = a
or_first (some old) a = old

-- The WHERE clause of a query by request.
abbrev pub is_settled : String → SettlementRow → Bool
is_settled id row = str_eq row.request_id id

abbrev pub same_slash : SlashRow → SlashRow → Bool
same_slash s row =
    str_eq row.request_id s.request_id
    && str_eq row.provider s.provider
    && str_eq row.transaction_hash s.transaction_hash

-- The chain's tables after a settlement that was not there before.
abbrev pub settle_ledger : String → SettlementRow → Ledger → Ledger
settle_ledger fee_recipient row l =
    let inserted = record l { settlements = row ∷ l.settlements } in
    let spent =
      update_session row.session_id
        (λ r. record r { spent = r.spent + row.provider_amount + row.fee_amount }) inserted in
    upsert_account fee_recipient (add_claimable (pos row.fee_amount))
      (upsert_account row.provider (add_claimable (pos row.provider_amount)) spent)

-- The chain's tables after "SessionClosed", for the row of the session.
abbrev pub close_ledger : String → ℕ → ChainSessionRow → Ledger → Ledger
close_ledger id returned row l =
    update_account row.customer (add_balance (pos returned))
      (record l { sessions = set_key l.sessions id (some (record row { finalized = true })) })

-- The chain's tables after "ProviderSlashed".
abbrev pub slash_ledger : String → SlashRow → Ledger → Ledger
slash_ledger fee_recipient row l =
    let inserted =
      if any (same_slash row) l.slashes then l else record l { slashes = row ∷ l.slashes } in
    upsert_account fee_recipient (add_claimable (pos row.amount))
      (update_account row.provider (slash_bond row.amount) inserted)

-- The chain's tables after "SessionOpened".
abbrev pub open_ledger : String → ChainSessionRow → Ledger → Ledger
open_ledger id row l =
    let inserted = record l {
      sessions = set_key l.sessions id (some (or_first (l.sessions id) row));
    } in
    update_account row.customer (add_balance (neg row.allowance)) inserted

-- "OfferPublished": ON CONFLICT DO NOTHING.
abbrev pub publish_offer : String → String → ℕ → OfferRow → Ledger → Ledger
publish_offer provider offer version row l = record l {
  offers = λ p o v.
      if str_eq provider p && str_eq offer o && version == v
      then some (or_first (l.offers p o v) row)
      else l.offers p o v;
}

abbrev pub set_signer : String → String → Bool → Ledger → Ledger
set_signer provider signer allowed l = record l {
  signers = λ p q. if str_eq provider p && str_eq signer q then some allowed else l.signers p q;
}

-- The row of a settlement, as the log gives it.
abbrev pub settlement_row : Log → String → String → String → ℕ → ℕ → SettlementRow
settlement_row log request session provider amount fee = record {
  request_id = request;
  session_id = session;
  provider = provider;
  provider_amount = amount;
  fee_amount = fee;
  transaction_hash = log.transaction_hash;
  block_number = log.block_number;
}

abbrev pub slash_row : Log → String → String → ℕ → SlashRow
slash_row log request provider amount = record {
  request_id = request;
  provider = provider;
  amount = amount;
  block_number = log.block_number;
  transaction_hash = log.transaction_hash;
}

abbrev pub session_row : String → ℕ → ℕ → ChainSessionRow
session_row customer allowance expires_at = record {
  customer = customer;
  allowance = allowance;
  spent = 0;
  expires_at = expires_at;
  close_available_at = 0;
  finalized = false;
}

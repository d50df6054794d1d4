-- ===== src/Chain/Ledger.antt =====
-- server/internal/chain/indexer.go: the tables that the indexer keeps for one contract of one chain,
-- and the events of the contract. An address and a hash are the text that the tables hold. What
-- counts the amounts of a `numeric` column may fall below 0; the column's limit of 78 digits is not
-- modelled.
use myference.Prelude.{ℕ, String, Bool, Option, none, List, []}
use myference.Prelude.Int.{ℤ}

pub record AccountRow : Type 0 where
  pub customer_balance : ℤ
  pub provider_bond : ℤ
  pub claimable : ℤ
  pub bond_exit_available_at : ℕ

pub record OfferRow : Type 0 where
  pub model_hash : String
  pub capability_hash : String
  pub input_per_million : ℕ
  pub output_per_million : ℕ
  pub compute_per_second : ℕ

pub record ChainSessionRow : Type 0 where
  pub customer : String
  pub allowance : ℕ
  pub spent : ℕ
  pub expires_at : ℕ
  pub close_available_at : ℕ
  pub finalized : Bool

pub record SettlementRow : Type 0 where
  pub request_id : String
  pub session_id : String
  pub provider : String
  pub provider_amount : ℕ
  pub fee_amount : ℕ
  pub transaction_hash : String
  pub block_number : ℕ

pub record SlashRow : Type 0 where
  pub request_id : String
  pub provider : String
  pub amount : ℕ
  pub block_number : ℕ
  pub transaction_hash : String

-- An event of the contract, with the arguments that the indexer reads.
pub data ChainEvent : Type 0 where
  deposited : String → ℕ → ChainEvent
  withdrawal_requested : String → ℕ → ChainEvent
  claimed : String → ℕ → ChainEvent
  bond_deposited : String → ℕ → ChainEvent
  provider_signer_set : String → String → Bool → ChainEvent
  bond_exit_requested : String → ℕ → ChainEvent
  bond_exit_finalized : String → ℕ → ChainEvent
  offer_published : String → String → ℕ → OfferRow → ChainEvent
  session_opened : String → String → ℕ → ℕ → ChainEvent
  session_close_requested : String → ℕ → ChainEvent
  session_closed : String → ℕ → ChainEvent
  receipt_settled : String → String → String → ℕ → ℕ → ChainEvent
  provider_slashed : String → String → ℕ → ChainEvent
  other_event : ChainEvent

-- A log of the contract, with the event that go-ethereum decodes from its topics and its payload, if
-- it can.
pub record Log : Type 0 where
  pub transaction_hash : String
  pub index : ℕ
  pub block_number : ℕ
  pub event : Option ChainEvent

pub data LedgerError : Type 0 where
  undecodable_log reservation_mismatch no_session constraint unreadable : LedgerError

-- chain_accounts, chain_provider_signers, chain_offers, chain_sessions, chain_settlements and
-- chain_slashes.
pub record Ledger : Type 0 where
  pub accounts : String → Option AccountRow
  pub signers : String → String → Option Bool
  pub offers : String → String → ℕ → Option OfferRow
  pub sessions : String → Option ChainSessionRow
  pub settlements : List SettlementRow
  pub slashes : List SlashRow

abbrev pub empty_ledger : Ledger
empty_ledger = record {
  accounts = λ a. none;
  signers = λ p s. none;
  offers = λ p o v. none;
  sessions = λ s. none;
  settlements = [];
  slashes = [];
}

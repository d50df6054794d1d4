-- ===== src/Store/Receipts.antt =====
-- server/internal/store/receipt.go: the preparation of the receipt of a completed request.
pub mod Prepared
pub mod Nonces
use Prim.Native.Char.{code}
use myference.Prelude.{
  ℕ, zero, suc, ◌+◌, ◌-◌, ◌*◌, String, Bool, true, false, not, ◌&&◌, ◌||◌, Option, none, some, List,
  [], ◌∷◌, str_eq, find?, any, ltb, leb, ◌==◌, if◌then◌else◌,
}
use myference.Prelude.Words.{u64_mod}
use myference.Prelude.Result.{Result, ok, err, ◌>>=◌, ◌>>◌, fail_if}
use myference.Protocol.Receipt as ReceiptModule
use myference.Protocol.Receipt.{
  Hash, Address, Receipt, is_zero, maximum_fee_basis_points, receipt_status_completed, validate,
}
use myference.Store.Tables.{
  Status, completed, RequestRow, ReservationRow, ProposalRow, SessionRow, Db,
}
use myference.Store.ExactCharge
use myference.Store.ExactCharge.{exact_charge}
use myference.Store.Inference.{or_fail}

pub data PrepareError : Type 0 where
  not_found invalid_receipt maximum_exceeded : PrepareError

-- `ReceiptDomain`
pub record ReceiptDomain : Type 0 where
  pub chain_id : ℕ
  pub contract_address : String
  pub settlement_signer : String
  pub fee_basis_points : ℕ
  pub fee_version : ℕ

pub record NonceRow : Type 0 where
  pub provider_address : String
  pub nonce : ℕ
  pub request_id : String

-- The columns of a proposal that only the receipt has: a digest is nothing if it is not 32 bytes long.
pub record ProposalDigests : Type 0 where
  pub input_hash : Option Hash
  pub output_hash : Option Hash
  pub completed_at : ℕ

pub record MachineParty : Type 0 where
  pub account_id : String
  pub signer_address : String
  pub revoked : Bool

pub record Rates : Type 0 where
  pub input_per_million : String
  pub output_per_million : String
  pub compute_per_second : String

-- The tables that a receipt is made of. `wallets` gives the wallet of an account; `offers` gives the
-- rates of `chain_offers` for a provider, an offer, a version, a model and a capability.
pub record ReceiptDb : Type 0 where
  pub db : Db
  pub digests : String → Option ProposalDigests
  pub machines : String → Option MachineParty
  pub wallets : String → Option String
  pub offers : ReceiptDomain → String → Hash → ℕ → Hash → Hash → Option Rates
  pub nonces : List NonceRow

-- go-ethereum's reading of hashes and addresses, and the database's `lower`.
pub record HexReader : Type 0 where
  pub is_hex_address : String → Bool
  pub hex_to_hash : String → Hash
  pub hex_to_address : String → Address
  pub lower : String → String

-- The value of a hex digit.
abbrev pub hex_digit : ℕ → Option ℕ
hex_digit c =
    if leb b'0' c && leb c b'9'
    then some (c - b'0')
    else if leb b'a' c && leb c b'f'
    then some (c - b'a' + 10)
    else if leb b'A' c && leb c b'F'
    then some (c - b'A' + 10)
    else none

-- As many hex digits as are asked for, and nothing else.
unfoldable pub read_hex : ℕ → ℕ → String → Option ℕ
read_hex zero acc String.[] = some acc
read_hex zero acc (String.◌∷◌ c s) = none
read_hex (suc n) acc String.[] = none
read_hex (suc n) acc (String.◌∷◌ c s) = elim (hex_digit (code c)) [
  | none ↦ none
  | some d ↦ read_hex n (acc * 16 + d) s
]

-- `parseHash`: "0x" and 64 hex digits.
unfoldable pub parse_hash : String → Option Hash
unfolding read_hex
parse_hash (String.◌∷◌ a (String.◌∷◌ b s)) =
    if code a == b'0' && code b == b'x' then read_hex 64 0 s else none
parse_hash (String.◌∷◌ a String.[]) = none
parse_hash String.[] = none

-- The row of the first query.
pub record Joined : Type 0 where
  pub proposal : ProposalRow
  pub digests : ProposalDigests
  pub request : RequestRow
  pub customer : String
  pub provider : String
  pub signer : String

abbrev pub is_completed : Status → Bool
is_completed completed = true
is_completed state = false

unfoldable pub join_receipt : ReceiptDb → String → Result PrepareError Joined
join_receipt s id = do
  proposal ← or_fail (s.db.proposals id) not_found
  digests ← or_fail (s.digests id) not_found
  request ← or_fail (s.db.requests id) not_found
  session ← or_fail (s.db.sessions proposal.session_id) not_found
  customer ← or_fail (s.wallets session.account_id) not_found
  machine ← or_fail (s.machines proposal.machine_id) not_found
  provider ← or_fail (s.wallets machine.account_id) not_found
  fail_if (not (is_completed request.state) || machine.revoked) not_found
  ok (record {
    proposal = proposal;
    digests = digests;
    request = request;
    customer = customer;
    provider = provider;
    signer = machine.signer_address;
  })

abbrev pub charge_error : Result ExactCharge.ReceiptError ℕ → Result PrepareError ℕ
charge_error (ok n) = ok n
charge_error (err e) = err invalid_receipt

-- UPDATE inference_reservations SET amount=… WHERE request_id=… AND amount>=…
abbrev pub is_covered : String → ℕ → ReservationRow → Bool
is_covered id total row = str_eq row.request_id id && leb total row.amount

unfoldable pub set_amount : String → ℕ → List ReservationRow → List ReservationRow
set_amount id total [] = []
set_amount id total (row ∷ rows) =
    (if is_covered id total row then record row { amount = total; released = total == 0 } else row)
    ∷ set_amount id total rows

abbrev pub checked_receipt : Option ReceiptModule.ReceiptError → Result PrepareError (Unit {0})
checked_receipt none = ok tt
checked_receipt (some ReceiptModule.ReceiptError.invalid_receipt) = err invalid_receipt
checked_receipt (some ReceiptModule.ReceiptError.maximum_exceeded) = err maximum_exceeded

abbrev pub has_request : String → NonceRow → Bool
has_request id row = str_eq row.request_id id

module _ (hex : HexReader) where
  open hex use {is_hex_address, hex_to_hash, hex_to_address, lower}

  -- SELECT COALESCE(max(nonce),0) … WHERE lower(provider_address)=lower(provider)
  unfoldable pub last_nonce : String → List NonceRow → ℕ
  last_nonce provider [] = 0
  last_nonce provider (row ∷ rows) =
      let rest = last_nonce provider rows in
      if str_eq (lower row.provider_address) (lower provider) && ltb rest row.nonce
      then row.nonce
      else rest

  -- The nonce of the request, and the table with it.
  abbrev pub nonce_for : String → String → List NonceRow → Option NonceRow → ℕ × List NonceRow
  nonce_for id provider rows (some row) = (row.nonce, rows)
  nonce_for id provider rows none =
      let next = last_nonce provider rows + 1 in
      (next, record { provider_address = provider; nonce = next; request_id = id } ∷ rows)

  unfoldable pub take_nonce : String → String → List NonceRow → ℕ × List NonceRow
  unfolding last_nonce
  take_nonce id provider rows = nonce_for id provider rows (find? (has_request id) rows)

  abbrev pub bad_domain : ReceiptDomain → Bool
  bad_domain domain =
      domain.chain_id == 0
      || not (is_hex_address domain.contract_address)
      || not (is_hex_address domain.settlement_signer)
      || domain.fee_version == 0
      || ltb maximum_fee_basis_points domain.fee_basis_points

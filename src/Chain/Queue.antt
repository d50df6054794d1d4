-- ===== src/Chain/Queue.antt =====
-- server/internal/chain/settlement.go: the queue of the signed receipts, and the batches in which they
-- go to the chain.
pub mod Agreement
pub mod Indexed
pub mod Runs
pub mod Calls
use Prim.Native.Char.{Char, char}
use Prim.Native.String.{String}
use myference.Prelude.{
  ◌&&◌, ℕ, zero, suc, ◌+◌, ◌/◌, ◌%◌, Bool, true, false, Option, none, some, List, [], ◌∷◌, ◌++◌,
  any, keep, take, ◌==◌, ◌≡◌, refl, if◌then◌else◌,
}
use myference.Prelude.Result.{Result, ok, err}
use myference.Protocol.Receipt.{Receipt}
use myference.Store.Tables.{Status, Db}
use myference.Chain.Indexing.{
  QueueState, QueueRow, Index, is_queued, update_queue, transition_settlement_request,
}

pub data QueueError : Type 0 where
  no_signed_receipts not_prepared not_broadcast : QueueError

-- `SignedReceipt`
pub record SignedReceipt : Type 0 where
  pub receipt : Receipt
  pub provider_signature : List ℕ
  pub settlement_signature : List ℕ

-- What the client does: it makes a transaction, its hash and its bytes, of receipts and their
-- signatures, and says whether it could broadcast one. `pending` is the row of those
-- given whose `updated_at` is the first.
pub record Client : Type 0 where
  pub prepare : List SignedReceipt → Option (String × List ℕ)
  pub broadcast : List ℕ → Bool
  pub pending : List QueueRow → Option QueueRow

-- The digit of `hashHex`.
abbrev pub hex_char : ℕ → Char
hex_char zero = char b'0' tt
hex_char (suc zero) = char b'1' tt
hex_char (suc (suc zero)) = char b'2' tt
hex_char (suc (suc (suc zero))) = char b'3' tt
hex_char (suc (suc (suc (suc zero)))) = char b'4' tt
hex_char (suc (suc (suc (suc (suc zero))))) = char b'5' tt
hex_char (suc (suc (suc (suc (suc (suc zero)))))) = char b'6' tt
hex_char (suc (suc (suc (suc (suc (suc (suc zero))))))) = char b'7' tt
hex_char (suc (suc (suc (suc (suc (suc (suc (suc zero)))))))) = char b'8' tt
hex_char (suc (suc (suc (suc (suc (suc (suc (suc (suc zero))))))))) = char b'9' tt
hex_char (suc (suc (suc (suc (suc (suc (suc (suc (suc (suc zero)))))))))) = char b'a' tt
hex_char (suc (suc (suc (suc (suc (suc (suc (suc (suc (suc (suc zero))))))))))) = char b'b' tt
hex_char (suc (suc (suc (suc (suc (suc (suc (suc (suc (suc (suc (suc zero)))))))))))) = char b'c' tt
hex_char (suc (suc (suc (suc (suc (suc (suc (suc (suc (suc (suc (suc (suc zero))))))))))))) =
    char b'd' tt
hex_char (suc (suc (suc (suc (suc (suc (suc (suc (suc (suc (suc (suc (suc (suc zero)))))))))))))) =
    char b'e' tt
hex_char n = char b'f' tt

-- So many hex digits of a number, before `rest`.
unfoldable pub hex_digits : ℕ → ℕ → String → String
hex_digits zero n rest = rest
hex_digits (suc count) n rest = hex_digits count (n / 16) (String.◌∷◌ (hex_char (n % 16)) rest)

-- `hashHex`
unfoldable pub hash_hex : ℕ → String
unfolding hex_digits
hash_hex value = String.◌∷◌ (hex_char 0) (String.◌∷◌ (char b'x' tt) (hex_digits 64 value ""))

abbrev pub is_completed_status : Status → Bool
is_completed_status Status.completed = true
is_completed_status state = false

abbrev pub is_signed : Status → Bool
is_signed Status.signed = true
is_signed state = false

abbrev pub queue_row : String → SignedReceipt → QueueRow
queue_row id signed = record {
  request_id = id;
  receipt = signed.receipt;
  provider_signature = signed.provider_signature;
  settlement_signature = signed.settlement_signature;
  state = QueueState.cosigned;
  transaction = none;
}

-- `Enqueue`, for the text of the receipt's request.
unfoldable pub enqueue_as : String → SignedReceipt → Index → Index
enqueue_as id signed s = if any (is_queued id) s.queue then s else record s {
  queue = s.queue ++ queue_row id signed ∷ [];
  db = transition_settlement_request id is_completed_status Status.completed Status.signed s.db;
}

-- `Enqueue`
unfoldable pub enqueue : SignedReceipt → Index → Index
unfolding hash_hex enqueue_as
enqueue signed s = enqueue_as (hash_hex signed.receipt.request_id) signed s

abbrev pub is_cosigned_state : QueueState → Bool
is_cosigned_state QueueState.cosigned = true
is_cosigned_state state = false

abbrev pub is_cosigned : QueueRow → Bool
is_cosigned row = is_cosigned_state row.state

abbrev pub signed_of : List QueueRow → List SignedReceipt
signed_of [] = []
signed_of (row ∷ rows) =
    record {
      receipt = row.receipt;
      provider_signature = row.provider_signature;
      settlement_signature = row.settlement_signature;
    }
    ∷ signed_of rows

abbrev pub queue_broadcast : String → List ℕ → QueueRow → QueueRow
queue_broadcast hash raw row = record row {
  state = QueueState.broadcasting;
  transaction = some (hash, raw);
}

-- The round of `SettleBatch` for one receipt.
abbrev pub submit_one : String → List ℕ → String → Index → Index
submit_one hash raw id s = record s {
  queue = update_queue id (queue_broadcast hash raw) s.queue;
  db = transition_settlement_request id is_signed Status.signed Status.submitted s.db;
}

unfoldable pub submit_all : String → List ℕ → List QueueRow → Index → Index
submit_all hash raw [] s = s
submit_all hash raw (row ∷ rows) s = submit_all hash raw rows (submit_one hash raw row.request_id s)

-- The broadcast at the end; its error comes with the hash.
abbrev pub send_transaction : Client → String → List ℕ → Index → Index × String × Option QueueError
send_transaction client hash raw s =
    if client.broadcast raw then (s, hash, none) else (s, hash, some not_broadcast)

abbrev pub settle_prepared :
    Client → List QueueRow → Option (String × List ℕ) → Index → Index × String × Option QueueError
settle_prepared client batch none s = (s, "", some not_prepared)
settle_prepared client batch (some (hash, raw)) s =
    send_transaction client hash raw (submit_all hash raw batch s)

abbrev pub settle_rows : Client → List QueueRow → Index → Index × String × Option QueueError
settle_rows client [] s = (s, "", some no_signed_receipts)
settle_rows client (row ∷ rows) s =
    settle_prepared client (row ∷ rows) (client.prepare (signed_of (row ∷ rows))) s

abbrev pub settle_new : Client → ℕ → Index → Index × String × Option QueueError
settle_new client limit s = settle_rows client (take limit (keep is_cosigned s.queue)) s

abbrev pub is_broadcasting : QueueState → Bool
is_broadcasting QueueState.broadcasting = true
is_broadcasting state = false

-- What `pendingBroadcast` found, if it was broadcast with a transaction.
abbrev pub settle_pending :
    Client → ℕ → Index → Option (String × List ℕ) → Index × String × Option QueueError
settle_pending client limit s none = settle_new client limit s
settle_pending client limit s (some (hash, raw)) = send_transaction client hash raw s

abbrev is_present : {A : Type 0} → Option A → Bool
is_present none = false
is_present (some x) = true

-- The rows that `pendingBroadcast` looks at.
abbrev pub is_waiting : QueueRow → Bool
is_waiting row = is_broadcasting row.state && is_present row.transaction

abbrev pub transaction_of : Option QueueRow → Option (String × List ℕ)
transaction_of none = none
transaction_of (some row) = row.transaction

-- `SettleBatch`; a limit below 0 is refused as 0 is.
unfoldable pub settle_batch : Client → ℕ → Index → Index × String × Option QueueError
unfolding submit_all
settle_batch client limit s =
    if limit == 0
    then (s, "", some no_signed_receipts)
    else settle_pending client limit s (transaction_of (client.pending (keep is_waiting s.queue)))

hash_hex_small :
    hash_hex 0x1f ≡ "0x000000000000000000000000000000000000000000000000000000000000001f"
unfolding hash_hex
hash_hex_small = refl

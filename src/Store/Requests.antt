-- ===== src/Store/Requests.antt =====
-- server/internal/store/store.go: the states of a request, and the outbox.
pub mod Lifecycle
pub mod Outbox
use myference.Prelude.{
  String, Bool, true, false, not, Option, none, some, List, [], ◌∷◌, if◌then◌else◌,
}
use myference.Prelude.Result.{Result, ok, err}
use myference.Store.Tables.{
  Status, created, reserved, offered, accepted, streaming, completed, signed, submitted, settled,
  rejected, expired, cancelled, failed, StoreError, no_rows, invalid_transition, no_outbox_events,
  RequestRow, OutboxRow, Db, set_state, emit,
}

-- The map `transitions`. A text that is no state is in no entry.
unfoldable pub transitions : Status → Status → Bool
transitions created reserved = true
transitions created cancelled = true
transitions created failed = true
transitions reserved offered = true
transitions reserved cancelled = true
transitions reserved expired = true
transitions reserved failed = true
transitions offered accepted = true
transitions offered rejected = true
transitions offered expired = true
transitions offered cancelled = true
transitions accepted streaming = true
transitions accepted cancelled = true
transitions accepted failed = true
transitions streaming completed = true
transitions streaming cancelled = true
transitions streaming failed = true
transitions completed signed = true
transitions completed failed = true
transitions signed submitted = true
transitions submitted settled = true
transitions _ _ = false

transition_row : Db → String → Status → Option RequestRow → Result StoreError Db
transition_row db id next none = err no_rows
transition_row db id next (some row) =
    if not (transitions row.state next)
    then err invalid_transition
    else ok (emit id row.state next (set_state id row next db))

-- `TransitionRequest`
unfoldable pub transition_request : Db → String → Status → Result StoreError Db
unfolding transition_row
transition_request db id next = transition_row db id next (db.requests id)

-- The first row that is not published, and the outbox with it published.
pub claim_first : List OutboxRow → Option (OutboxRow × List OutboxRow)
claim_first [] = none
claim_first (row ∷ rows) =
    if not row.published
    then some (row, record row { published = true } ∷ rows)
    else elim (claim_first rows) [ none ↦ none | some (claimed, rest) ↦ some (claimed, row ∷ rest) ]

-- `ClaimOutbox`
unfoldable pub claim_outbox : Db → Result StoreError (OutboxRow × Db)
unfolding claim_first
claim_outbox db = elim (claim_first db.outbox) [
  | none ↦ err no_outbox_events
  | some (row, outbox) ↦ ok (row, record db { outbox = outbox })
]

-- ===== src/Lib.antt =====
-- The Myference marketplace: customers pay providers for inference, and a broker stands between.
--
-- A customer's request is routed to a provider's offer (server/internal/router), its worst case is
-- reserved from the customer's session (server/internal/store), the job goes to the provider's
-- machine over the relay (server/internal/relay), whose daemon (cli/internal/provider) sends the
-- output back in numbered chunks (protocol/v1), and what was used is charged and settled by a signed
-- receipt. A provider's wallet actions (server/internal/api/provider_action.go) and the tuning of a
-- provider's Windows host (cli/internal/platform/windows) stand beside this path, and so do the
-- devices and keys of an account (server/internal/auth) and the index of what happens on the chain
-- (server/internal/chain).
--
-- Where each part is modelled:
--   Protocol: protocol/v1. Price is price.go (Price.Charge), Receipt is receipt.go, Signing is
--     signing.go, Messages are the messages of messages.go with their Validate methods, Chunks is
--     its ChunkTracker, Envelopes its Envelope, and Workspace its JobOffer. `output` is the field
--     Data of OutputChunk.
--   Router: server/internal/router/router.go, each function by its name in snake case.
--   Store: server/internal/store. Tables are the rows that the queries use, Requests is store.go
--     (TransitionRequest, ClaimOutbox), Inference is inference.go (ReserveInference,
--     CompleteInference, AbortInference), Capacity its UpdateProviderCapacity with the tests of
--     evidence and rates, ExactCharge is exactCharge of receipt.go, and
--     Receipts and Prepare its PrepareReceipt. A transaction is a function from the tables to an
--     error or to new tables; advisory locks make the transactions of a session or a request follow
--     each other, so a run is a list of them.
--   Provider: cli/internal/provider. Requests is RequestState of daemon.go, Status what the daemon
--     records of its requests and earnings (recordRequestStarted, recordReceipt, and so on).
--   Relay: server/internal/relay/hub.go; AcceptInbound is Relay.Inbound. The hub is one state with a
--     heap of sessions; each method, each tick and each read from a channel is a step of it
--     (Relay.Calls), and a run of the hub is any list of steps, in any order. A method is one step,
--     also where the source takes the hub's lock more than once.
--   Actions: server/internal/api/provider_action.go, the action store and the validation of its input.
--   Tuning: cli/internal/platform/windows. Journal is journal.go, Optimize is optimize.go and
--     config.go. The calls of the file system are given their faults, and a host is the state of a
--     runner, so that every error path is a value.
--   Chain: server/internal/chain/indexer.go. Ledger holds the indexer's tables and the contract's
--     events, Updates what each event changes, Indexing is applyLog, insertLog and indexRange on these
--     and on the tables of Store that they write, Sync is rewind and Sync, and Chain itself the loop of
--     Sync (batchEnd) and firstCodeBlock. Indexing.Replay is the ledger as the logs alone give it. Queue
--     is server/internal/chain/settlement.go; Queue.Calls is any sequence of receipts, batches, logs
--     and rewinds.
--   Auth: server/internal/auth. Of device.go, Devices is the device flow, Machines the use of a
--     machine's token, Keys the API keys, and Calls any sequence of calls of both. Browser is
--     browser.go, the login of a wallet and the sessions of a browser.
--   Prelude: tests, lists, texts, 64-bit words, integers and decimal numbers that these share.
--   Examples: the theorems at concrete inputs.
--
-- Conventions: numbers are natural numbers. A uint64 wraps around explicitly where the source adds
-- (Prelude.Words), and a big.Int that can be negative is a ℤ. A Go map is a function with the zero
-- value of a missing key, or a list of entries where its size matters. An error value is a
-- constructor. A pair of a value and an error is a result, or both where the source returns both.
-- Every loop is a recursion on the list that it goes through, or has fuel: the printing of a number
-- has the number itself, and each round divides by ten; the loop of Sync has the number of blocks,
-- of which each round indexes at least one; the search of firstCodeBlock has the distance of its
-- bounds, which each round shortens.
--
-- Parameters, for code of other libraries: SHA-256, the database's lower() and go-ethereum's
-- reading of addresses and hashes (Auth.Tables.Primitives, Auth.Browser.BrowserLibrary,
-- Store.Receipts.HexReader), its hashes and its curve (Protocol.Signing.Crypto), the Ethereum node
-- (Chain.Indexing.Node), the client that makes and broadcasts a transaction (Chain.Queue.Client),
-- and the decoding of a log, which a log carries. For code of Go's library: sort.Slice with its
-- contract (Router.Order.IsSort), slices.Sort, path.Clean, base64 and sort.Strings
-- (Protocol.Workspace.WorkspaceLibrary), the strict JSON decoder (Protocol.Envelopes.Decoder), and
-- the JSON of a journal (Tuning.Journal.Codec), of which the theorems ask that the journals at hand
-- are read back. Of path.Clean it is asked that in a path that it leaves as it is, components lead
-- up only at the beginning.
--
-- Not modelled: the routing queries and the reconciliation of capacities with the
-- chain, the settlement coordinator, the HTTP handlers, the backends, the user
-- interfaces and the generated contract bindings; the web front end and the contracts are in other
-- languages. I/O and logging are left out everywhere: a call of the database or of the random
-- generator that fails is not modelled, and time is an argument.
pub mod Prelude
pub mod Protocol
pub mod Router
pub mod Store
pub mod Provider
pub mod Relay
pub mod Actions
pub mod Tuning
pub mod Chain
pub mod Auth
pub mod Examples

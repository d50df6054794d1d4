-- ===== src/Examples.antt =====
-- The theorems at concrete inputs.
mod Sorting
mod Routing
mod Reservations
mod Streams
mod Connections
mod Wallet
mod Hosts
mod Blocks
mod Jobs
mod Accounts
mod Ledgers
mod Receipts
mod Capacities
mod Signatures
mod Queues
mod Logins

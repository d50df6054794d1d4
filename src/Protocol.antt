-- ===== src/Protocol.antt =====
-- protocol/v1: the messages and the prices that the broker and the providers share.
pub mod Price
pub mod Receipt
pub mod Signing
pub mod Messages
pub mod Chunks
pub mod Envelopes
pub mod Workspace

-- ===== src/Store.antt =====
-- server/internal/store: the broker's durable state, and what a request costs.
pub mod Tables
pub mod Requests
pub mod Inference
pub mod ExactCharge
pub mod Receipts
pub mod Prepare
pub mod Capacity
pub mod Charging
pub mod Operations

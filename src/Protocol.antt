-- ===== src/Protocol.antt =====
-- The package pkg/protocol.
pub mod Decay
pub mod Errors
pub mod Validation
pub mod Revert
pub mod Client
pub mod Swap
pub mod Transaction
pub mod Read
pub mod Receipt
pub mod Tests

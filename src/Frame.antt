-- ===== src/Frame.antt =====
-- The package pkg/frame.
pub mod Words
pub mod Types
pub mod Errors
pub mod Codec
pub mod Signing
pub mod Prepare
pub mod Tests

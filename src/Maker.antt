-- ===== src/Maker.antt =====
-- The package pkg/maker.
pub mod Quote
pub mod Client
mod Tests

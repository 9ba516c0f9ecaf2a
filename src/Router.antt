-- ===== src/Router.antt =====
-- The package pkg/router.
pub mod Quote
pub mod Swap
mod Tests

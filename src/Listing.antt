-- ===== src/Listing.antt =====
-- The package pkg/listing.
pub mod Types
pub mod Sizes
pub mod Pair
mod Tests

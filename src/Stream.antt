-- ===== src/Stream.antt =====
-- The streaming clients of internal/.
pub mod Types
pub mod Client
pub mod Subscription
pub mod Sound
pub mod Steps
pub mod Config
pub mod Envelope
pub mod Reconnect
pub mod Publish
mod Tests

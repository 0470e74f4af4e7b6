-- ===== src/Notifier.antt =====
-- internal/notifier/notifier.go: alerts, from the event to its channels.
pub mod Types
pub mod Send
pub mod Work
pub mod Steady
pub mod Config
pub mod Run
pub mod Guard
pub mod Spacing
pub mod Account

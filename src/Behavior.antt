-- ===== src/Behavior.antt =====
-- internal/behavior: the analysis of what clients do over time.
pub mod Types
pub mod Checks
pub mod Detector
pub mod Ban
pub mod Trip
pub mod Persist
pub mod Restored

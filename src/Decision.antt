-- ===== src/Decision.antt =====
-- internal/decision: the final verdict on a request, the allow and deny lists, the bypass.
pub mod Types
pub mod Lists
pub mod Stored
pub mod Reason
pub mod Verdict
pub mod Threshold
pub mod Bypass
pub mod Outcome
pub mod Restore
pub mod Access
pub mod Counts
pub mod Expiry
pub mod Persist

-- ===== src/Api.antt =====
-- internal/api: the live view of the logs.
pub mod Ring
pub mod Replay
pub mod Restored

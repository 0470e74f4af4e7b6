-- ===== src/Ml.antt =====
-- internal/ml: the circuit breaker and the client of the prediction service.
pub mod Breaker
pub mod Probe
pub mod Cache
pub mod Linked
pub mod Lru
pub mod Refine
pub mod Replay
pub mod Client
pub mod Answered
pub mod Held
pub mod Recent
pub mod Writes
pub mod Remembered

-- ===== src/RateLimit.antt =====
-- internal/ratelimit/ratelimit.go: the per-endpoint token-bucket rate limiter.
pub mod Types
pub mod Match
pub mod Longest
pub mod Bucket
pub mod Refill
pub mod Limiter
pub mod Frame
pub mod Budget
pub mod Runs
pub mod Cleaned
pub mod Quota
pub mod Outcome
pub mod Admin
pub mod Ranking
pub mod Persist

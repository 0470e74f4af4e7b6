-- ===== src/Request.antt =====
-- internal/parser and internal/normalizer: from an HTTP request to what the rules inspect.
pub mod Types
pub mod Parser
pub mod Normalizer

-- ===== src/Auth.antt =====
-- internal/auth: the tokens of the dashboard's users.
pub mod Revocation
pub mod Jwt
pub mod Sweep

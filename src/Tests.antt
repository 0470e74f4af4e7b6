-- ===== src/Tests.antt =====
-- Tests: the theorems applied to concrete inputs.
mod Limits
mod Verdicts
mod Breakers
mod Rules
mod Behaviors
mod Predictions
mod Requests
mod Restarts
mod Alerts

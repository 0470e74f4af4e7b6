-- ===== src/Engine.antt =====
-- internal/engine: the rule engine. `Types` is shared with the decision engine.
pub mod Types
pub mod Platform
pub mod Tracker
pub mod Counter
pub mod Operators
pub mod Filter
pub mod Selector
pub mod Detect
pub mod Order
pub mod MlHook
pub mod Evaluate
pub mod Validate
pub mod Load
pub mod Words
pub mod Labels
pub mod Labelled
pub mod Tally
pub mod Reload
pub mod Persist

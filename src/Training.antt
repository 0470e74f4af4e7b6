-- ===== src/Training.antt =====
-- internal/training: the text that the model reads, and the records for its training.
pub mod Text
pub mod Canonical
pub mod Capture

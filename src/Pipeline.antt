-- ===== src/Pipeline.antt =====
-- internal/middleware/waf.go: the handler that runs the components on each request.
pub mod Types
pub mod Inference
pub mod Answers
pub mod Serve
pub mod Forwards
pub mod Denied
pub mod DryRun

-- ===== src/Middleware.antt =====
-- The middlewares around a job: middleware.go and middleware_*.go.
pub mod Retry
pub mod Stats
pub mod Logging
pub mod Chain
pub mod Pipeline

-- ===== src/Worker.antt =====
-- internal/worker: what its background jobs share, retries with a growing delay, a lease and a log
-- of outcomes.
pub mod Retry
pub mod Lease
pub mod Outcome
pub mod Metrics
pub mod Processor
pub mod Background
mod Tests

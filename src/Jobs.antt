-- ===== src/Jobs.antt =====
-- internal/jobs/job.go: `Queue` holds the code, and the others its proofs.
pub mod Queue
pub mod Lifecycle
pub mod Sound
pub mod Cancelling
pub mod Waiting
mod Tests

-- ===== src/Executor.antt =====
-- internal/workflow/dag/executor.go: `Step` holds the run of one step, `Run` the levels, and the
-- others the proofs.
pub mod Step
pub mod Run
pub mod Attempts
pub mod Order
mod Tests

-- ===== src/Orchestrator.antt =====
-- internal/orchestrator: `Dependency` holds the code of dependency.go, and the others its proofs.
pub mod Dependency
pub mod Decides
pub mod Postorder
pub mod Order
pub mod Apply
pub mod Rollback
pub mod Restored
mod Tests

-- ===== src/Quota.antt =====
-- internal/quota/manager.go with the types of pkg/types/quota.go: `Types` and `Manager` hold the
-- code, and the others its proofs.
pub mod Types
pub mod Manager
pub mod Usage
mod Tests

-- ===== src/Rbac.antt =====
-- internal/rbac/rbac.go: `Access` holds the code, and the others its proofs.
pub mod Access
pub mod Checks
pub mod Grants
pub mod Orgs
pub mod Abac
mod Tests

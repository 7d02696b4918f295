-- ===== src/Jit.antt =====
-- internal/rbac/jit.go: `Manager` and `Cleanup` hold the code, and the others its proofs.
pub mod Manager
pub mod Cleanup
pub mod Sound
pub mod Sharing
pub mod Requests
pub mod Grants
pub mod Steps
pub mod Gaps
mod Tests

-- ===== src/Environment.antt =====
-- internal/environment/resolver.go: `Resolver` holds the merge of a platform with an environment and
-- `Chain` the check of the promotion chain; the others hold the proofs.
pub mod Resolver
pub mod Chain
pub mod Sharing
pub mod Promotion
mod Tests

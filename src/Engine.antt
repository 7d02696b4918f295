-- ===== src/Engine.antt =====
-- internal/engine/dependency_graph.go: `Graph` holds the graph of engines, `Resolver` the resolver of
-- their dependencies, and the others the proofs.
pub mod Graph
pub mod Agree
pub mod Readded
pub mod Resolver
pub mod Satisfied
pub mod Waiting
pub mod Coordinator
mod Tests

-- ===== src/Dag.antt =====
-- internal/workflow/dag/graph.go: the children `Graph`, `Search` and `Levels` hold the code, and
-- the others its proofs.
pub mod Graph
pub mod Walks
pub mod Search
pub mod Levels
pub mod Cycles
pub mod Layers
pub mod Schedule
pub mod Goroutines
pub mod Links
pub mod Neighbours
pub mod Reached
pub mod Validate
pub mod Build
mod Tests

-- ===== src/Pipeline/Queue.antt =====
-- internal/pipeline/queue/queues.go: the priority queue of the analysis stage.
pub mod Defs
pub mod Refinement
pub mod Order
pub mod History
pub mod Waits
pub mod Drains
mod Tests

-- ===== src/Pipeline/Correlator.antt =====
-- internal/pipeline/correlator: the engine that groups the fault events of a window.
pub mod Config
pub mod Defs
pub mod Emission
pub mod Grouping
pub mod Filed
pub mod Consumed
pub mod Conditions
pub mod Explained
pub mod Quiet
pub mod Partition
pub mod Engine
mod Tests

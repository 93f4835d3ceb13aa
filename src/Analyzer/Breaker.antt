-- ===== src/Analyzer/Breaker.antt =====
-- internal/analyzer/circuit_breaker.go, with its proofs in the other children.
pub mod Defs
pub mod Sequence
pub mod Shielded
pub mod Concurrent
mod Tests

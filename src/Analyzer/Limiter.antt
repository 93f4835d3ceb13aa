-- ===== src/Analyzer/Limiter.antt =====
-- internal/analyzer/rate_limiter.go, with its proofs in the other children.
pub mod Defs
pub mod Ledger
pub mod Budget
mod Tests

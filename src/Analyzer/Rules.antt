-- ===== src/Analyzer/Rules.antt =====
-- internal/analyzer/rules.go, with its proofs in the other children.
pub mod Patterns
pub mod Signals
pub mod Sections
pub mod Logs
pub mod Extraction
pub mod Evidence
pub mod Chain
pub mod Categories
pub mod Workloads
pub mod Analyze
pub mod Verdict
pub mod Oom
mod Tests

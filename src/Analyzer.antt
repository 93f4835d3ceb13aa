-- ===== src/Analyzer.antt =====
-- internal/analyzer: the wrappers around an analysis backend.
pub mod Backend
pub mod Breaker
pub mod Limiter
pub mod Reports
pub mod Rules

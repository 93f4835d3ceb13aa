-- ===== src/Analyzer/Reports.antt =====
-- internal/analyzer: what every backend makes its report from, the backend that analyses nothing, and
-- the answers of a language model.
pub mod Source
pub mod Noop
pub mod Response
pub mod Valid
mod Tests

-- ===== src/Filter.antt =====
-- internal/filter: which resources no detector looks at.
pub mod Types
pub mod Selectors
pub mod Engine
pub mod Levels
pub mod Precedence
pub mod Owners
pub mod Matching
pub mod Tests

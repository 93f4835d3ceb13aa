-- ===== src/Detector/Base.antt =====
-- internal/detector/base.go, with its proofs in the other children.
pub mod Defs
pub mod Cooldown
pub mod Failure
mod Tests

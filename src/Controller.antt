-- ===== src/Controller.antt =====
-- internal/controller/detectors.go, with its proofs in the other children.
pub mod Objects
pub mod Bridge
pub mod Start
pub mod Blind
pub mod Submitted
pub mod Cascades
mod Tests

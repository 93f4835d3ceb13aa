-- ===== src/Gatherer.antt =====
-- internal/gatherer: the sections of a diagnostic bundle.
pub mod PodEvents
pub mod Lines
pub mod Newlines
pub mod RoundTrip
mod Tests

-- ===== src/Detector.antt =====
-- internal/detector: what the fault detectors share, and the detectors.
pub mod Base
pub mod Outcome
pub mod PodCrashLoop
pub mod PodFailed
pub mod PodStuckPending
pub mod PvcStuckBinding
pub mod NodeNotReady
pub mod HighPodCount
pub mod JobDeadlineExceeded

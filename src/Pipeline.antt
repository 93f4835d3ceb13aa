-- ===== src/Pipeline.antt =====
-- internal/pipeline: the work queues and the correlation engine between detection and gathering.
pub mod Queue
pub mod Correlator

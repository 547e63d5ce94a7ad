-- ===== src/Observation.antt =====
-- Observation evidence of src/observation: clock evidence and freshness.
pub mod Time
pub mod Records
pub mod Receiver
pub mod Index

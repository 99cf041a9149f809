-- ===== src/Status.antt =====
-- pkg/status/status.go: probing the pods of a Gateway until they serve the new version.
pub mod Types
pub mod Prober
pub mod Events
pub mod Counters
pub mod Store
pub mod Keys
pub mod Answers
pub mod Queue
pub mod Contract

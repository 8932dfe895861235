-- ===== src/Outpost.antt =====
-- crates/outpost/src/lib.rs: the acceptance of batches, their enrichment, and their delivery.
pub mod State
pub mod Identity
pub mod ObjectKey
pub mod Config
pub mod Accept
pub mod Deliver
pub mod Kubernetes
pub mod Service

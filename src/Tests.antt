-- ===== src/Tests.antt =====
-- The tests, and the theorems at concrete inputs.
pub mod Samples
pub mod Batches
pub mod ProtocolRuns
pub mod ObserverWitnesses
pub mod ProtocolWitnesses
pub mod SpoolWitnesses
pub mod ProcessorWitnesses
pub mod OutpostWitnesses
pub mod ObservedWitnesses

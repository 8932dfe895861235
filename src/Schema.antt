-- ===== src/Schema.antt =====
-- crates/schema/src/lib.rs: the contract of events and batches, and the validation of a batch.
pub mod Types
pub mod Validate

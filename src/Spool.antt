-- ===== src/Spool.antt =====
-- crates/spool/src/lib.rs: the durable spool, a directory of batches named by their digests.
pub mod Files
pub mod Digest
pub mod Store
pub mod Recovery
pub mod Steps
pub mod Ledger

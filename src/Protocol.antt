-- ===== src/Protocol.antt =====
-- crates/mongo-protocol/src/lib.rs: the decoder of the MongoDB wire protocol.
pub mod Types
pub mod Libraries
pub mod Read
pub mod Bson
pub mod Deletes
pub mod Json
pub mod Scram
pub mod Summary
pub mod Document
pub mod Message
pub mod Frame
pub mod Stream

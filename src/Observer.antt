-- ===== src/Observer.antt =====
-- crates/observer/src/lib.rs: the events of the kernel, DNS messages, the files of /proc, and the
-- event processor.
pub mod State
pub mod Kernel
pub mod Dns
pub mod Commands
pub mod PodUid
pub mod Endpoint
pub mod Proc
pub mod Codes
pub mod Events
pub mod Requests
pub mod Messages
pub mod DnsQueries
pub mod ConnectionEvents
pub mod Kinds
pub mod Processor
pub mod Sound
pub mod Runs
pub mod Matching
pub mod Released

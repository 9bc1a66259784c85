-- ===== src/Bus.antt =====
-- crates/bus: the event bus on Redis streams, the outbox that feeds it, and the change log.
pub mod Message
pub mod Samples
pub mod Client
pub mod Outbox
pub mod Audit

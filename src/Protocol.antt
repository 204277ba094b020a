-- ===== src/Protocol.antt =====
-- crates/broker-protocol: the frames between the unelevated client and the elevated broker.
pub mod Errors
pub mod Message
pub mod Payload
pub mod Transport
pub mod Frame
pub mod Session
mod Tests

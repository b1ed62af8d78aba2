-- ===== src/Proto.antt =====
-- The messages of sdk/node/src/gen/: data, `encode`, the `case`s of `decode`, and that decoding takes
-- back what encoding wrote.
pub mod Time
pub mod Google
pub mod Common
pub mod Message
pub mod Notice
pub mod Activity
pub mod Event
pub mod Auth
pub mod Snapshot
pub mod Session
pub mod Info
pub mod Codec

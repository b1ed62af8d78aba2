-- ===== src/Client.antt =====
-- sdk/node/src/client.ts: the client of a runtime.
pub mod Text
pub mod Auth
pub mod Timeout
pub mod Calls
pub mod Lifecycle

-- ===== src/Tests.antt =====
-- Concrete inputs for the theorems, and runs of the definitions.
mod Cells
mod Inputs
mod Codecs
mod Queues
mod Streams
mod Clients
mod Runtimes

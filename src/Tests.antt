-- ===== src/Tests.antt =====
-- Concrete parameters, tests of the definitions, and the theorems at inputs that meet their
-- hypotheses.
pub mod Codec
pub mod Peer
pub mod Service
pub mod Wires
pub mod World
pub mod Run
pub mod Objects
mod Sending
mod Rejecting
mod Parsing
mod Offline
mod Draining
pub mod Hsm
mod Laws
mod Streaming
mod Concurrent
pub mod Scenario
pub mod Network
pub mod Suite
mod Samples

-- ===== src/Scenario.antt =====
-- The driver of the end-to-end tests, scenario/node/src: it runs a Fabric network in containers and
-- calls the client library as an application does.
pub mod Utils
pub mod Ski
pub mod Invocation
pub mod Fabric
pub mod Context
pub mod Fixtures
pub mod HsmUsers
pub mod World
pub mod Details
pub mod Steps
pub mod Running

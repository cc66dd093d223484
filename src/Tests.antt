-- ===== src/Tests.antt =====
-- Runs of the models at small inputs: test data, and the theorems applied to it.
pub mod Data
pub mod Messages
pub mod Queue
pub mod Broker
pub mod Modules
pub mod Processes
pub mod Manifests
pub mod Startup
pub mod Activation
pub mod System

-- ===== src/Broker.antt =====
-- internal/broker: the routing core.
pub mod Queue
pub mod Plan
pub mod Overtaking
pub mod Exclusive
pub mod Isolation
pub mod Core
pub mod Invoke
pub mod Updates
pub mod Handled
pub mod World
pub mod Gates
pub mod Exchange
pub mod Reports
pub mod Replies

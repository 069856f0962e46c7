-- ===== src/NodeRouting.antt =====
-- src/node_routing.rs: the choice of a node for a read. A mutex makes each method of a target's
-- health one atomic step; instants are in milliseconds.
pub mod Config
pub mod Health
pub mod Calls
pub mod Breaker
pub mod Failover
pub mod Replies
pub mod Names
mod Tests

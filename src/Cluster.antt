-- ===== src/Cluster.antt =====
-- internal/cluster/node.go and internal/cluster/manager.go: the nodes of the cluster, their
-- registration, their heartbeats, and the checker that takes silent nodes offline. A time is a
-- number of nanoseconds and an argument of the call that reads the clock.
pub mod Node
pub mod Manager
pub mod Registry
pub mod Events
pub mod Health
pub mod Offline
mod Examples

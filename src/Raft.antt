-- ===== src/Raft.antt =====
-- tasks/raft-distributed-consensus-engine: a Raft node, its storage and the cluster that connects nodes.
pub mod Types
pub mod Storage
pub mod Node
pub mod Cluster
mod Examples

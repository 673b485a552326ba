-- ===== src/Raft.antt =====
-- raft: a replica of the Raft consensus algorithm.
pub mod Protos
pub mod Node
pub mod Storage
pub mod Server
pub mod States
pub mod Log
pub mod Vote
pub mod Invariant
pub mod Persist
pub mod Quorum
pub mod Election
pub mod Append
pub mod Replicate
pub mod Client
pub mod Apply
pub mod Connect
pub mod Setup
pub mod Timer
pub mod Blocking
pub mod Cluster
pub mod Harness

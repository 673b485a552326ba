-- ===== src/Raft/Cluster.antt =====
-- The replicas of a cluster and the vote requests between them, as a state and a step relation.
pub mod Ballot
pub mod Invariant
pub mod Calls
pub mod Majority
pub mod Effects
pub mod Handlers
pub mod Elections
pub mod Local
pub mod System
pub mod Changes
pub mod Votes
pub mod Replies
pub mod Safety
pub mod Terms

-- ===== src/Tests.antt =====
-- The theorems at concrete inputs, and runs of the definitions.
mod Server
mod Setup
mod Shared
mod Cluster
mod Broadcast
mod Clients
mod Blocking
mod Beats
mod Harness
mod Images
mod Replicas
mod Votes
mod Logs
mod Elections
mod Commands
mod Store

-- ===== src/KvStore.antt =====
-- raft/kv_store: the key-value store of one replica, a hash table of 101 chains behind an HTTP
-- interface, saved to a file after each write.
pub mod Hash
pub mod LinkedList
pub mod Store
pub mod View
pub mod Operations
pub mod Handlers
pub mod Service
pub mod Saved

-- ===== src/KvStore/Service.antt =====
-- The store's HTTP service against a map from keys to values: the routes of `StartKVStore`
-- (raft/initial_setup.go) to the handlers of Handlers.antt, and what each request does to the map.
mod Defs
mod Refines
pub use Refines.*
unfoldable pub use Defs.*

-- ===== src/Raft/Setup.antt =====
-- main.go, and `Setup_raft_node`, `Connect_raft_node` and the ends of the services of
-- raft/initial_setup.go; `ListenForShutdown` of raft/utils.go. What the network answers is a parameter:
-- whether an address is dialled, resolved and listened on without an error, and the answers that the
-- loops which wait for a service get.
use distributed_dns.Base.{
  ℕ, zero, suc, ◌==◌, ◌&&◌, Bool, true, false, Option, none, some, List, [], ◌∷◌, ◌++◌, drop,
  GoString, bytes, itoa, Gob, StringMap, Run, ok, ◌>>=◌, if◌then◌else◌,
}
use distributed_dns.Raft.Node.{Replica, Value}
use distributed_dns.Raft.Cluster.Elections.{reboot}
use distributed_dns.Raft.Connect.{check_error_fatal, connect_to_peer_replicas}
pub mod Addresses
pub mod Start
pub mod Stop

abbrev pub kv_address : ℕ → GoString
kv_address id = bytes ":300" ++ itoa id

abbrev pub grpc_address : ℕ → GoString
grpc_address id = bytes ":500" ++ itoa id

abbrev pub server_address : ℕ → GoString
server_address id = bytes ":400" ++ itoa id

abbrev pub store_file : ℕ → GoString
store_file id = bytes "600" ++ itoa id

-- `keyvalue_addr[1:]`
abbrev pub raft_persistence_file : GoString → GoString
raft_persistence_file keyvalue_addr = drop 1 keyvalue_addr

-- The loop of `main` over the replicas from `i` on, with as many left.
unfoldable pub addresses : ℕ → ℕ → ℕ → List GoString
addresses rid zero i = []
addresses rid (suc left) i = (if i == rid then [] else grpc_address i) ∷ addresses rid left (suc i)

abbrev pub rep_addrs : ℕ → ℕ → List GoString
rep_addrs n rid = addresses rid n 0

-- The goroutines that run until the context is cancelled.
pub data Service : Type 0 where
  applier : Service
  kv_store : GoString → GoString → Service
  grpc_server : GoString → Service
  raft_server : GoString → Service

-- A replica with the address of its store, the name of its file and its services, the last one first.
pub record Site : Type 0 where
  pub replica : Replica
  pub kvstore_addr : GoString
  pub persistence_file : GoString
  pub running : List Service

pub record Network : Type 0 where
  pub dials : GoString → Bool
  pub resolves : GoString → Bool
  pub listens : GoString → Bool

-- For each round of a loop that waits, whether it gets what it waits for: an answer of the store, a
-- connection to the replica's own server, that it is ready, an answer of the HTTP server.
pub record Rounds : Type 0 where
  pub store : List Bool
  pub own : List Bool
  pub ready : List Bool
  pub server : List Bool

-- A loop that waits ends.
unfoldable pub gets : List Bool → Bool
gets [] = false
gets (true ∷ rounds) = true
gets (false ∷ rounds) = gets rounds

abbrev pub with_address : GoString → Replica → Replica
with_address addr w = record w {
  node = record w.node { meta = record w.node.meta { node_address = addr } };
}

-- The servers of a connected replica, and the waits for them.
unfoldable pub start_servers : Network → Rounds → ℕ → Site → Replica → Run (Option Site)
start_servers net rounds id site w = do
  resolved ← check_error_fatal (net.resolves (grpc_address id)) (grpc_address id)
  addr ← check_error_fatal (net.listens resolved) resolved
  ok (
      if gets rounds.own && (gets rounds.ready && gets rounds.server)
      then some (record site {
        replica = with_address (server_address id) w;
        running = raft_server (server_address id) ∷ grpc_server addr ∷ site.running;
      })
      else none)

unfoldable pub connect_raft_node : Network → Rounds → ℕ → List GoString → Site → Run (Option Site)
unfolding start_servers
connect_raft_node net rounds id addrs site = do
  w ← connect_to_peer_replicas net.dials addrs site.replica
  start_servers net rounds id site w

module _ (gob : Gob Value) where
  -- `file` is the map that an earlier run wrote to the file, if there is one. `none` while a loop still
  -- waits.
  unfoldable pub setup_raft_node : Rounds → ℕ → ℕ → Option (StringMap Value) → Run (Option Site)
  setup_raft_node rounds id n file = do
    w ← reboot gob n id file
    ok (
        if gets rounds.store
        then some (record {
          replica = w;
          kvstore_addr = kv_address id;
          persistence_file = raft_persistence_file (kv_address id);
          running = kv_store (kv_address id) (store_file id) ∷ applier ∷ [];
        })
        else none)

  -- `main`, up to the wait for a signal.
  unfoldable pub start_node :
      Network → Rounds → ℕ → ℕ → Option (StringMap Value) → Run (Option Site)
  unfolding setup_raft_node connect_raft_node
  start_node net rounds rid n file = do
    set_up ← setup_raft_node rounds rid n file
    elim set_up [
      | none ↦ ok none
      | some site ↦ connect_raft_node net rounds rid (rep_addrs n rid) site
    ]

-- What a service sends on `shutdown_chan` at its end, outside of the tests.
abbrev pub farewell : Service → GoString
farewell applier = bytes "ApplyToStateMachine shutdown successful."
farewell (kv_store addr file) = bytes "KV store shutdown successful."
farewell (grpc_server addr) = bytes "gRPC server shutdown successful."
farewell (raft_server addr) = bytes "Client request listener shutdown successful."

-- What `ListenAndServe` returns: nil, `http.ErrServerClosed`, or another error.
pub data ServeResult : Type 0 where
  no_error : ServeResult
  server_closed : ServeResult
  serve_failed : ServeResult

abbrev pub may_go_on : ServeResult → Bool
may_go_on serve_failed = false
may_go_on _ = true

-- The end of `StartKVStore` and `StartRaftServer`: what is sent, if anything.
unfoldable pub server_end : Bool → Service → ServeResult → Run (Option GoString)
server_end testing service result =
    check_error_fatal (may_go_on result) (if testing then none else some (farewell service))

-- The loop of `ListenForShutdown`, with as many rounds left: what it receives, and whether it ends
-- without the time limit. An event is a text, or `none` when the time limit comes first.
unfoldable pub shutdown_loop : ℕ → List (Option GoString) → List GoString × Bool
shutdown_loop zero events = ([], true)
shutdown_loop (suc left) [] = ([], false)
shutdown_loop (suc left) (none ∷ events) = ([], false)
shutdown_loop (suc left) (some str ∷ events) =
    let rest = shutdown_loop left events in (str ∷ rest.0, rest.1)

unfoldable pub listen_for_shutdown : List (Option GoString) → List GoString × Bool
unfolding shutdown_loop
listen_for_shutdown events = shutdown_loop 4 events

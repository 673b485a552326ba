-- ===== src/Tests/Setup.antt =====
-- A replica that starts again, and one that stops.
use distributed_dns.Base.{
  ◌≡◌, refl, arith, true, false, Option, none, some, List, [], ◌∷◌, bytes, Returns, itoa, length,
  ok,
}
use distributed_dns.Base.Int.{pos, minus_one}
use distributed_dns.Raft.Node.{RaftNodeState, RaftNode, Value, store_node}
use distributed_dns.Raft.Persist.{store_node-Keeps}
use distributed_dns.Raft.Apply.{StoreRequest, post_request}
use distributed_dns.Raft.Apply.Laws.{is_post, is_no_op}
use distributed_dns.Raft.Setup.{
  Network, Rounds, gets, setup_raft_node, connect_raft_node, start_node, rep_addrs, addresses,
  listen_for_shutdown,
}
use distributed_dns.Raft.Storage.{initialize_node, has_data}
use distributed_dns.Raft.Cluster.Elections.{reboot}
use distributed_dns.Raft.Connect.{connect_to_peer_replicas, dial_loop, proceed}
use distributed_dns.Raft.Harness.{Slot, find_leader}
use distributed_dns.Raft.Harness.Begin.{start_test}
use distributed_dns.Raft.Harness.Entries.{add_new_log_entries}
use distributed_dns.Raft.Setup.Start.{IsUp, Started, start_node-Started}
use distributed_dns.Tests.Cluster.{http}
use distributed_dns.Tests.Images.{plain}
use distributed_dns.Tests.Replicas.{node_of, leader_log, leader_0}

abbrev late_node : RaftNode
late_node = record (node_of 1 RaftNodeState.follower 2 minus_one leader_log) {
  commit_index = pos 2;
}

abbrev requests : List (Option StoreRequest)
requests = none ∷ none ∷ some (post_request (bytes "k") (bytes "v")) ∷ []

abbrev network : Network
network = record { dials = λ addr. true; resolves = λ addr. true; listens = λ addr. true }

abbrev rounds : Rounds
rounds = record { store = true ∷ []; own = true ∷ []; ready = true ∷ []; server = true ∷ [] }

all-IsUp : IsUp network rounds
unfolding gets
all-IsUp = record {
  dials = λ addr. refl;
  resolves = λ addr. refl;
  listens = λ addr. refl;
  store = refl;
  own = refl;
  ready = refl;
  server = refl;
}

start_node-Started_example :
    Returns
      (start_node (plain Value) network rounds 1 3 (some (store_node late_node [])))
      (Started http requests 0 3 1 late_node)
start_node-Started_example =
    start_node-Started (plain Value) http network rounds 1 3 (store_node late_node []) late_node
      requests 0 all-IsUp (store_node-Keeps late_node []) (omega arith)
      (is_no_op, (is_no_op, (is_post (bytes "k") (bytes "v"), tt)))

decimal : itoa 120 ≡ bytes "120"
unfolding itoa
decimal = refl

dialled : rep_addrs 3 1 ≡ bytes ":5000" ∷ [] ∷ bytes ":5002" ∷ []
unfolding addresses itoa
dialled = refl

-- The third text comes too late.
forced : (listen_for_shutdown (some (bytes "a") ∷ some (bytes "b") ∷ none ∷ [])).1 ≡ false
unfolding listen_for_shutdown
forced = refl

-- Two replicas without files: both are active, and none leads.
begun :
    Returns
      (start_test (plain Value) network (λ i. rounds) 2 (λ i. none))
      λ r. (ss : List Slot) × (r ≡ some ss) × (length ss ≡ 2) × (find_leader ss ≡ minus_one)
unfolding start_test setup_raft_node reboot initialize_node has_data connect_raft_node
    connect_to_peer_replicas proceed dial_loop gets find_leader
begun = (_, refl, (_, refl, refl, refl))

posts :
    add_new_log_entries (λ post. true) 1 7 (record { replica = leader_0; active = true } ∷ [])
    ≡ ok (
        record {
          url = bytes "http://localhost:4000/key7";
          form = bytes "value=value7&client=admin";
        }
        ∷ [])
unfolding add_new_log_entries find_leader itoa
posts = refl

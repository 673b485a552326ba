-- ===== src/Tests/Replicas.antt =====
-- Sample logs, nodes and replicas.
use distributed_dns.Base.{ℕ, List, [], ◌∷◌, some, true, GoString, bytes}
use distributed_dns.Base.Int.{ℤ, pos, minus_one}
use distributed_dns.Raft.Protos.{LogEntry}
use distributed_dns.Raft.Node.{RaftNodeState, NodeMetadata, RaftNode, Replica, store_node}
use distributed_dns.Raft.Election.{no_op}

abbrev pub posted : ℕ → GoString → LogEntry
posted t key = record {
  term = pos t;
  operation = bytes "POST" ∷ key ∷ bytes "v" ∷ [];
  clientid = bytes "c";
}

abbrev pub meta_of : ℕ → NodeMetadata
meta_of id = record {
  n_replicas = 3;
  replica_id = id;
  peer_replica_clients = true ∷ true ∷ true ∷ [];
  leader_address = [];
  node_address = [];
  latest_client = [];
}

-- Replica `id` at a term, with a vote and a log of which the first entry is committed and applied.
abbrev pub node_of : ℕ → RaftNodeState → ℕ → ℤ → List LogEntry → RaftNode
node_of id state term voted log = record {
  meta = meta_of id;
  track_message = [];
  current_term = pos term;
  voted_for = voted;
  log = log;
  commit_index = pos 0;
  last_applied = pos 0;
  state = state;
  next_index = pos 2 ∷ pos 2 ∷ pos 2 ∷ [];
  match_index = pos 0 ∷ pos 0 ∷ pos 0 ∷ [];
}

abbrev pub replica_of : RaftNode → Replica
replica_of n = record { node = n; storage = []; saved = some (store_node n []); effects = [] }

abbrev pub short_log : List LogEntry
short_log = no_op (pos 1) ∷ []

-- The leader of term 2 wrote two entries behind the one of term 1.
abbrev pub leader_log : List LogEntry
leader_log = no_op (pos 1) ∷ no_op (pos 2) ∷ posted 2 (bytes "k") ∷ []

-- A follower that has an entry of term 1 where the leader has one of term 2, and one more behind.
abbrev pub stale_log : List LogEntry
stale_log = no_op (pos 1) ∷ posted 1 (bytes "a") ∷ posted 1 (bytes "b") ∷ posted 1 (bytes "d") ∷ []

abbrev pub follower_1 : Replica
follower_1 = replica_of (node_of 1 RaftNodeState.follower 1 minus_one stale_log)

abbrev pub leader_0 : Replica
leader_0 = replica_of (node_of 0 RaftNodeState.leader 2 (pos 0) leader_log)

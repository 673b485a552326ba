-- ===== src/Tests/Votes.antt =====
-- `RequestVote` at sample replicas.
use distributed_dns.Base.{ℕ, [], ◌≡◌, ◌↔◌, refl, true, arith, Returns, if◌then◌else◌}
use distributed_dns.Base.Int.{ℤ, pos, minus_one}
use distributed_dns.Raft.Protos.{RequestVoteMessage}
use distributed_dns.Raft.Node.{RaftNodeState, Replica, Value, store_node}
use distributed_dns.Raft.Log.{AtLeast}
use distributed_dns.Raft.Vote.{request_vote}
use distributed_dns.Raft.Vote.Laws.{vote_once, vote_newer, vote_first}
use distributed_dns.Raft.Vote.Durable.{request_vote-IsDurable, ask_restarted, restarted-vote_once}
use distributed_dns.Raft.Invariant.{IsDurable}
use distributed_dns.Raft.Persist.{store_node-Keeps}
use distributed_dns.Tests.Images.{plain}
use distributed_dns.Tests.Replicas.{node_of, replica_of, short_log}

abbrev asks : ℕ → RequestVoteMessage
asks term = record {
  term = pos term;
  candidate_id = pos 2;
  last_log_index = pos 2;
  last_log_term = pos 2;
}

abbrev voter : ℤ → Replica
voter voted = replica_of (node_of 1 RaftNodeState.follower 5 voted short_log)

-- Replica 1 voted for 2 in term 5. A late request of 2 from term 3 is granted again.
vote_once_example : Returns (request_vote (asks 3) (voter (pos 2))) λ r.
    (r.0.node ≡ (voter (pos 2)).node)
    × ((r.1.vote_granted ≡ true) ↔ ((voter (pos 2)).node.voted_for ≡ (asks 3).candidate_id))
vote_once_example = vote_once (asks 3) (voter (pos 2)) (omega arith) (omega arith) (λ e. cc)

vote_newer_example : Returns (request_vote (asks 6) (voter (pos 0))) λ r.
    ((r.1.vote_granted ≡ true) ↔ AtLeast (asks 6) (voter (pos 0)).node.log)
    × (r.0.node ≡ record (voter (pos 0)).node {
      state = RaftNodeState.follower;
      current_term = (asks 6).term;
      voted_for = if r.1.vote_granted then (asks 6).candidate_id else minus_one;
    })
vote_newer_example = vote_newer (asks 6) (voter (pos 0)) (omega arith) (omega arith) (λ e. cc)

vote_first_example : Returns (request_vote (asks 5) (voter minus_one)) λ r.
    ((r.1.vote_granted ≡ true) ↔ AtLeast (asks 5) (voter minus_one).node.log)
    × (r.0.node ≡ record (voter minus_one).node {
      voted_for = if r.1.vote_granted then (asks 5).candidate_id else minus_one;
    })
vote_first_example = vote_first (asks 5) (voter minus_one) (omega arith) refl refl (λ e. cc)

request_vote-IsDurable_example : Returns (request_vote (asks 6) (voter (pos 0))) λ r. IsDurable r.0
request_vote-IsDurable_example =
    request_vote-IsDurable (asks 6) (voter (pos 0)) (omega arith)
      (_, refl, store_node-Keeps (voter (pos 0)).node [])

-- The voter of term 5 starts again, and is asked by another candidate.
restarted-vote_once_example :
    Returns (ask_restarted (plain Value) 3 1 (store_node (voter (pos 0)).node []) (asks 5)) λ r.
      (r.0.node.current_term ≡ (voter (pos 0)).node.current_term)
      × (r.0.node.voted_for ≡ (voter (pos 0)).node.voted_for)
      × ((r.1.vote_granted ≡ true) ↔ ((voter (pos 0)).node.voted_for ≡ (asks 5).candidate_id))
restarted-vote_once_example =
    restarted-vote_once (plain Value) 3 1 (store_node (voter (pos 0)).node []) (voter (pos 0)).node
      (asks 5) (store_node-Keeps (voter (pos 0)).node []) (omega arith) (omega arith) (λ e. cc)

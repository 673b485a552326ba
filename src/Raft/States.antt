-- ===== src/Raft/States.antt =====
-- raft/states.go: `ToFollower` and `ToCandidate`, and `StartElection` of raft/election.go up to the
-- goroutines that it starts.
use distributed_dns.Base.{ℕ, suc, Bool, true, false, List, [], ◌∷◌, ◌==◌, if◌then◌else◌}
use distributed_dns.Base.Int.{ℤ, pos, minus_one, add32}
use distributed_dns.Raft.Node.{
  RaftNodeState, follower, candidate, leader, RaftNode, Replica, spawn_reset, run_timer, ask_vote,
  persist, emit,
}

abbrev pub is_leader : RaftNodeState → Bool
is_leader leader = true
is_leader _ = false

abbrev pub is_candidate : RaftNodeState → Bool
is_candidate candidate = true
is_candidate _ = false

-- A leader has no election timer and starts one; otherwise the running one is reset.
unfoldable pub to_follower : ℤ → Replica → Replica
to_follower term w =
    let changed : RaftNode = record w.node {
      state = follower;
      current_term = term;
      voted_for = minus_one;
    } in
    emit (if is_leader w.node.state then run_timer else spawn_reset)
      (persist (record w { node = changed }))

-- The loop of `StartElection` over the client stubs, from replica `i` on: a goroutine for each other
-- replica with a stub.
unfoldable pub ask_votes : ℕ → ℕ → List Bool → Replica → Replica
ask_votes self i [] w = w
ask_votes self i (stub ∷ stubs) w =
    ask_votes self (suc i) stubs (if i == self then w else if stub then emit (ask_vote i) w else w)

unfoldable pub start_election : Replica → Replica
unfolding ask_votes
start_election w =
    emit run_timer (ask_votes w.node.meta.replica_id 0 w.node.meta.peer_replica_clients w)

unfoldable pub to_candidate : Replica → Replica
unfolding start_election
to_candidate w =
    let changed : RaftNode = record w.node {
      state = candidate;
      current_term = add32 w.node.current_term (pos 1);
      voted_for = pos w.node.meta.replica_id;
    } in
    start_election (persist (record w { node = changed }))

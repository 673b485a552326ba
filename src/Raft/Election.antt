-- ===== src/Raft/Election.antt =====
-- raft/election.go: what a goroutine of `StartElection` sends, and what it does with the reply; and
-- `ToLeader` of raft/states.go up to its first release of the lock.
pub mod Laws
pub mod Lead
use distributed_dns.Base.{
  ℕ, zero, suc, ◌+◌, ◌*◌, Bool, true, false, List, [], ◌∷◌, ◌++◌, Run, ok, ◌>>=◌, GoString, bytes,
  length, ltb, ◌==◌, if◌then◌else◌,
}
use distributed_dns.Base.Int.{ℤ, pos, ltb_ℤ, eqb_ℤ}
use distributed_dns.Raft.Protos.{LogEntry, RequestVoteMessage, RequestVoteResponse}
use distributed_dns.Raft.Node.{
  RaftNode, RaftNodeState, leader, Replica, stop_timer, persist, emit, log_len,
}
use distributed_dns.Raft.States.{is_candidate, to_follower}
use distributed_dns.Raft.Vote.{latest}

-- The arguments of the request, read from the node when the goroutine runs.
unfoldable pub vote_message : RaftNode → Run RequestVoteMessage
vote_message n = do
  (index, term) ← latest n.log
  ok (record {
    term = n.current_term;
    candidate_id = pos n.meta.replica_id;
    last_log_index = index;
    last_log_term = term;
  })

-- The loop over `nextIndex`: every other replica gets `value`, the replica itself keeps 0.
unfoldable pub fill : ℕ → ℕ → ℕ → ℤ → List ℤ
fill zero i self value = []
fill (suc n) i self value = (if i == self then pos 0 else value) ∷ fill n (suc i) self value

abbrev pub no_op : ℤ → LogEntry
no_op term = record { term = term; operation = bytes "NO-OP" ∷ []; clientid = bytes " " }

unfoldable pub to_leader : Replica → Replica
unfolding fill
to_leader w =
    let stopped = emit stop_timer w in
    let n = w.node in
    persist (record stopped {
      node = record n {
        state = leader;
        next_index = fill n.meta.n_replicas 0 n.meta.replica_id (log_len n.log);
        match_index = fill n.meta.n_replicas 0 n.meta.replica_id (pos 0);
        log = n.log ++ no_op n.current_term ∷ [];
      };
    })

-- The reply to a request, with the counter `received_votes` of the election, which counts the
-- candidate's own vote from the start.
unfoldable pub vote_reply : RequestVoteResponse → ℕ → Replica → Replica × ℕ
vote_reply response votes w =
    if is_candidate w.node.state
    then (if ltb_ℤ w.node.current_term response.term
        then (to_follower response.term w, votes)
        else if eqb_ℤ response.term w.node.current_term
        then (if response.vote_granted
            then (if ltb w.node.meta.n_replicas ((votes + 1) * 2)
                then (to_leader w, votes + 1)
                else (w, votes + 1))
            else (w, votes))
        else (w, votes))
    else (w, votes)

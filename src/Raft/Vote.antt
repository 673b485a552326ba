-- ===== src/Raft/Vote.antt =====
-- raft/rpcs.go: the RPC `RequestVote`.
pub mod Laws
pub mod Durable
use distributed_dns.Base.{
  ℕ, Bool, true, false, ◌&&◌, ◌||◌, List, [], ◌∷◌, Run, ok, ◌>>=◌, length, if◌then◌else◌,
}
use distributed_dns.Base.Int.{ℤ, pos, minus_one, int32, sub32, ltb_ℤ, leb_ℤ, eqb_ℤ}
use distributed_dns.Raft.Protos.{LogEntry, RequestVoteMessage, RequestVoteResponse}
use distributed_dns.Raft.Node.{RaftNode, Replica, persist, entry_at, log_len}
use distributed_dns.Raft.States.{to_follower}

-- `latestLogIndex` and `latestLogTerm`
unfoldable pub latest : List LogEntry → Run (ℤ × ℤ)
latest log =
    let index = sub32 (log_len log) (pos 1) in
    if ltb_ℤ (pos 0) (log_len log)
    then (do e ← entry_at log index; ok (index, e.term))
    else ok (minus_one, minus_one)

-- The candidate's log is at least as up-to-date as one that ends with this index and term.
unfoldable pub up_to_date : RequestVoteMessage → ℤ × ℤ → Bool
up_to_date msg last =
    ltb_ℤ last.1 msg.last_log_term
    || (eqb_ℤ msg.last_log_term last.1 && leb_ℤ last.0 msg.last_log_index)

-- `if in.Term > node.currentTerm { node.ToFollower(…) }`
unfoldable pub catch_up : ℤ → Replica → Replica
unfolding to_follower
catch_up term w = if ltb_ℤ w.node.current_term term then to_follower term w else w

-- The condition of the grant, once the term is caught up.
unfoldable pub grants : RequestVoteMessage → ℤ × ℤ → RaftNode → Bool
unfolding up_to_date
grants msg last n =
    eqb_ℤ n.voted_for msg.candidate_id
    || (eqb_ℤ msg.term n.current_term && (eqb_ℤ n.voted_for minus_one && up_to_date msg last))

unfoldable pub answer : RequestVoteMessage → ℤ × ℤ → Replica → Replica × RequestVoteResponse
unfolding grants
answer msg last w =
    if grants msg last w.node
    then (
      persist (record w { node = record w.node { voted_for = msg.candidate_id } }),
      record { term = msg.term; vote_granted = true },
    )
    else (w, record { term = msg.term; vote_granted = false })

unfoldable pub request_vote : RequestVoteMessage → Replica → Run (Replica × RequestVoteResponse)
unfolding latest catch_up answer
request_vote msg w = do last ← latest w.node.log; ok (answer msg last (catch_up msg.term w))

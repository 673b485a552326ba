-- ===== src/Raft/Election/Laws.antt =====
-- How replies to vote requests change a candidate, and what a new leader is.
use distributed_dns.Base.{
  ℕ, zero, suc, ◌+◌, ◌-◌, ◌*◌, ◌<◌, ◌^◌, ◌≡◌, ◌≢◌, ◌↔◌, refl, true, some, [], ◌∷◌, ◌++◌, arith, ok,
  Returns, length, length-append, get_elem?,
}
use distributed_dns.Base.Int.{ℤ, pos, ◌≤ℤ◌}
use distributed_dns.Raft.Protos.{RequestVoteMessage, RequestVoteResponse}
use distributed_dns.Raft.Node.{RaftNode, candidate, leader, Replica, Fits, log_len}
use distributed_dns.Raft.Log.{last_term, last_index}
use distributed_dns.Raft.Persist.{store_node-Keeps}
use distributed_dns.Raft.Invariant.{IsWellFormed, IsDurable}
use distributed_dns.Raft.States.{to_follower}
use distributed_dns.Raft.Vote.{request_vote}
use distributed_dns.Raft.Vote.Laws.{latest_lem, reply_term}
use distributed_dns.Raft.Election.{vote_message, fill, no_op, to_leader, vote_reply}

-- The request carries the candidate's term, its number and the end of its log.
pub vote_message_lem :
    (n : RaftNode)
    → Fits n.log
    → vote_message n
      ≡ ok (record {
        term = n.current_term;
        candidate_id = pos n.meta.replica_id;
        last_log_index = last_index n.log;
        last_log_term = last_term n.log;
      })
unfolding vote_message
vote_message_lem n h = rw (latest_lem n.log h)

-- A candidate becomes leader by a reply exactly if the reply grants a vote of its term and the
-- votes, with this one, are more than half of the replicas.
pub vote_reply-leader :
    (response : RequestVoteResponse) (votes : ℕ) (w : Replica)
    → w.node.state ≡ candidate
    → ((vote_reply response votes w).0.node.state ≡ leader) ↔ (
        (response.term ≡ w.node.current_term)
        × (response.vote_granted ≡ true)
        × (w.node.meta.n_replicas < (votes + 1) * 2))
unfolding vote_reply to_leader to_follower
vote_reply-leader response votes w c = (λ h. ground arith, λ h. ground arith)

-- The reply of a replica whose log fits, whatever its own term, to a request of no newer term than
-- the candidate's leaves the candidate's term as it is.
pub vote_reply-same_term :
    (msg : RequestVoteMessage) (voter w : Replica) (votes : ℕ)
    → Fits voter.node.log
    → msg.term ≤ℤ w.node.current_term
    → Returns
        (request_vote msg voter)
        λ r. (vote_reply r.1 votes w).0.node.current_term ≡ w.node.current_term
unfolding vote_reply to_leader to_follower
vote_reply-same_term msg voter w votes fits le =
    let (r, run, term) = reply_term msg voter fits in (r, run, ground arith)

get_elem?-fill :
    (n i self j : ℕ) (v : ℤ) → j < n → i + j ≢ self → get_elem? (fill n i self v) j ≡ some v
unfolding fill
get_elem?-fill zero i self j v lt ne = absurd (omega arith)
get_elem?-fill (suc n) i self zero v lt ne = ground arith
get_elem?-fill (suc n) i self (suc j) v lt ne =
    get_elem?-fill n (suc i) self j v (omega arith) (λ e. ne (omega arith))

-- A replica that is well-formed, with room for one more entry, is well-formed and in its file after
-- it became leader: its log has one more entry, a NO-OP of its term, and every other replica is to
-- be sent entries from the old end of the log on.
pub to_leader-starts :
    (w : Replica)
    → IsWellFormed w.node
    → length w.node.log + 1 < 2 ^ 31 - 1
    → IsWellFormed (to_leader w).node
      × IsDurable (to_leader w)
      × ((to_leader w).node.log ≡ w.node.log ++ no_op w.node.current_term ∷ [])
      × ((j : ℕ)
          → j < w.node.meta.n_replicas
          → j ≢ w.node.meta.replica_id
          → get_elem? (to_leader w).node.next_index j ≡ some (log_len w.node.log))
unfolding to_leader
to_leader-starts w wf small = (
  record {
    fits = omega (arith, length-append w.node.log (no_op w.node.current_term ∷ []));
    applied = wf.applied;
    ordered = wf.ordered;
    within = omega (arith, wf.within, length-append w.node.log (no_op w.node.current_term ∷ []));
  },
  (_, refl, store_node-Keeps _ _),
  refl,
  λ j lt ne.
      get_elem?-fill w.node.meta.n_replicas 0 w.node.meta.replica_id j _ lt (λ e. ne (omega arith)),
)

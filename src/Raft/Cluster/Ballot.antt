-- ===== src/Raft/Cluster/Ballot.antt =====
-- What an election is about: the state, the term and the vote of a replica, and how an operation of
-- one replica may change them.
use distributed_dns.Base.{◌≡◌, Bool, ℕ}
use distributed_dns.Base.Int.{ℤ, pos, minus_one, ◌<ℤ◌}
use distributed_dns.Raft.Protos.{RequestVoteMessage, RequestVoteResponse}
use distributed_dns.Raft.Node.{RaftNodeState, follower, candidate, RaftNode}

pub record Ballot : Type 0 where
  pub state : RaftNodeState
  pub term : ℤ
  pub voted : ℤ

abbrev pub ballot : RaftNode → Ballot
ballot n = record { state = n.state; term = n.current_term; voted = n.voted_for }

-- A change by replica `i` alone: none, a newer term, a candidate that steps down, a restart, a new
-- election.
pub data Moves (i : ℕ) (b : Ballot) : Ballot → Type 0 where
  stay : Moves i b b
  rise :
      (t : ℤ) → b.term <ℤ t → Moves i b (record { state = follower; term = t; voted = minus_one })
  step_down :
      b.state ≡ candidate
      → Moves i b (record { state = follower; term = b.term; voted = minus_one })
  rejoin : Moves i b (record { state = follower; term = b.term; voted = b.voted })
  stand : (t : ℤ) → b.term <ℤ t → Moves i b (record { state = candidate; term = t; voted = pos i })

-- A goroutine of `StartElection`: it has not read the term yet, waits for the reply, has the reply,
-- or has ended, with the vote counted or not.
pub data Call : Type 0 where
  idle spawned : Call
  asking : RequestVoteMessage → Call
  replied : RequestVoteResponse → Call
  ended : Bool → Call

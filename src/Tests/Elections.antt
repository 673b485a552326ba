-- ===== src/Tests/Elections.antt =====
-- Elections and majorities at sample replicas.
use distributed_dns.Base.{
  inr, if◌then◌else◌, ◌+◌, ◌*◌, ◌<◌, ◌≡◌, ◌↔◌, refl, true, false, arith, List, [], ◌∷◌, Returns,
  Bool, leb,
}
use distributed_dns.Base.Int.{pos, minus_one}
use distributed_dns.Raft.Protos.{AppendEntriesMessage, RequestVoteMessage, RequestVoteResponse}
use distributed_dns.Raft.Node.{RaftNodeState, candidate, leader, Replica}
use distributed_dns.Raft.Vote.{request_vote}
use distributed_dns.Raft.Election.{vote_reply, no_op, to_leader}
use distributed_dns.Raft.Election.Laws.{vote_reply-leader, vote_reply-same_term}
use distributed_dns.Raft.Election.Lead.{LeadsOn, lead_rounds, succeed_after, lead_rounds-LeadsOn}
use distributed_dns.Raft.Log.{AtLeast}
use distributed_dns.Raft.Append.StepDown.{append_then_vote, append_then_vote-again}
use distributed_dns.Raft.Quorum.{count_outcomes, new_tally, trues, one_verdict}
use distributed_dns.Tests.Replicas.{node_of, replica_of, short_log}

abbrev candidate_2 : Replica
candidate_2 = replica_of (node_of 2 candidate 3 (pos 2) short_log)

abbrev granted : RequestVoteResponse
granted = record { term = pos 3; vote_granted = true }

-- The second of three votes.
vote_reply-leader_example : ((vote_reply granted 1 candidate_2).0.node.state ≡ leader) ↔ (
    (granted.term ≡ candidate_2.node.current_term)
    × (granted.vote_granted ≡ true)
    × (candidate_2.node.meta.n_replicas < (1 + 1) * 2))
vote_reply-leader_example = vote_reply-leader granted 1 candidate_2 refl

abbrev asks : RequestVoteMessage
asks = record { term = pos 3; candidate_id = pos 2; last_log_index = pos 0; last_log_term = pos 1 }

-- A replica of term 9.
abbrev ahead : Replica
ahead = replica_of (node_of 1 RaftNodeState.follower 9 minus_one short_log)

vote_reply-same_term_example :
    Returns
      (request_vote asks ahead)
      λ r. (vote_reply r.1 1 candidate_2).0.node.current_term ≡ candidate_2.node.current_term
vote_reply-same_term_example =
    vote_reply-same_term asks ahead candidate_2 1 (omega arith) (omega arith)

-- Two of the other four replicas succeed.
abbrev outcomes : List Bool
outcomes = false ∷ true ∷ false ∷ true ∷ []

one_verdict_example :
    (count_outcomes 5 new_tally outcomes).sent ≡ leb (5 + 1) (2 * (trues outcomes + 1)) ∷ []
one_verdict_example = one_verdict 5 outcomes (omega arith) refl

-- Two failures, then a majority has the NO-OP.
lead_rounds-LeadsOn_example :
    LeadsOn candidate_2 (lead_rounds (succeed_after 2) (to_leader candidate_2))
lead_rounds-LeadsOn_example = lead_rounds-LeadsOn 2 candidate_2 (omega arith) (omega arith)

-- The leader of term 3.
abbrev heartbeat : AppendEntriesMessage
heartbeat = record {
  term = pos 3;
  leader_id = pos 0;
  prev_log_index = pos 0;
  prev_log_term = pos 1;
  leader_commit = pos 0;
  entries = [];
  leader_addr = [];
  latest_client = [];
}

-- Candidate 1 of the same term.
abbrev late_asks : RequestVoteMessage
late_asks = record asks { candidate_id = pos 1 }

append_then_vote-again_example : Returns (append_then_vote heartbeat late_asks candidate_2) λ r.
    (r.0.node.current_term ≡ candidate_2.node.current_term)
    × ((r.1.vote_granted ≡ true) ↔ AtLeast late_asks r.0.node.log)
    × (r.0.node.voted_for ≡ (if r.1.vote_granted then late_asks.candidate_id else minus_one))
append_then_vote-again_example =
    append_then_vote-again heartbeat late_asks candidate_2 (omega arith) (omega arith)
      (inr (0, no_op (pos 1), refl, refl, refl)) refl refl refl (λ e. cc)

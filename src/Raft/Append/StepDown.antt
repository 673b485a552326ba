-- ===== src/Raft/Append/StepDown.antt =====
-- The vote of a candidate that steps down to a leader of its own term.
use distributed_dns.Base.{
  ◌≡◌, ◌≢◌, ◌↔◌, arith, true, sym, ◌∙◌, ap, Returns, Run, ◌>>=◌, if◌then◌else◌,
}
use distributed_dns.Base.Int.{minus_one}
use distributed_dns.Raft.Protos.{AppendEntriesMessage, RequestVoteMessage, RequestVoteResponse}
use distributed_dns.Raft.Node.{candidate, Replica, Fits}
use distributed_dns.Raft.Log.{AtLeast}
use distributed_dns.Raft.Invariant.{IsWellFormed, IsSane, Consistent}
use distributed_dns.Raft.Append.{append_entries}
use distributed_dns.Raft.Append.Laws.{append_entries-Appends}
use distributed_dns.Raft.Vote.{request_vote}
use distributed_dns.Raft.Vote.Laws.{vote_first}

-- The two messages arrive one after the other.
unfoldable pub append_then_vote :
    AppendEntriesMessage → RequestVoteMessage → Replica → Run (Replica × RequestVoteResponse)
append_then_vote msg ask w = do (w', response) ← append_entries msg w; request_vote ask w'

-- A well-formed candidate that gets a sane `AppendEntries` of its own term, which its log holds the
-- entry for, and then a request of the same term by a candidate whose number is not -1, keeps its
-- term and grants the request exactly if that candidate's log is at least as up-to-date, whatever
-- vote it had in that term.
pub append_then_vote-again :
    (msg : AppendEntriesMessage) (ask : RequestVoteMessage) (w : Replica)
    → IsWellFormed w.node
    → IsSane msg
    → Consistent w.node.log msg
    → w.node.state ≡ candidate
    → msg.term ≡ w.node.current_term
    → ask.term ≡ w.node.current_term
    → ask.candidate_id ≢ minus_one
    → Returns (append_then_vote msg ask w) λ r.
      (r.0.node.current_term ≡ w.node.current_term)
      × ((r.1.vote_granted ≡ true) ↔ AtLeast ask r.0.node.log)
      × (r.0.node.voted_for ≡ (if r.1.vote_granted then ask.candidate_id else minus_one))
unfolding append_then_vote
append_then_vote-again msg ask w wf sane c stands same asked named =
    let ((w', response), run, a) = append_entries-Appends msg w wf sane (rw same (omega arith)) c in
    let fits : Fits w'.node.log = omega (arith, a.merged.size, wf.fits, sane.small) in
    let (r, run', (granted, kept)) =
      vote_first ask w' fits (asked ∙ sym same ∙ sym a.term) (a.voted stands) named in
    (
      r,
      rw run run',
      (
        ap (λ n. n.current_term) kept ∙ a.term ∙ same,
        rw (ap (λ n. n.log) kept) granted,
        ap (λ n. n.voted_for) kept,
      ),
    )

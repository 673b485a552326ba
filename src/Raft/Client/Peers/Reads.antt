-- ===== src/Raft/Client/Peers/Reads.antt =====
-- Which reads return the store's text, and which replicas have the leader's log then.
use distributed_dns.Base.{
  ℕ, ◌+◌, ◌-◌, ◌*◌, ◌<◌, ◌≡◌, Bool, true, Option, none, some, List, length, GoString,
}
use distributed_dns.Base.Int.{ℤ}
use distributed_dns.Raft.Node.{Replica}
use distributed_dns.Raft.States.{is_leader}
use distributed_dns.Raft.Replicate.Converge.{Link, answer, with_both}
use distributed_dns.Raft.Replicate.Broadcast.Outcomes.{Agrees}
use distributed_dns.Raft.Replicate.Broadcast.Majority.{MajorityHas, reliable, targets_of}
use distributed_dns.Raft.Client.{ClientError, body, read_command}
use distributed_dns.Raft.Client.Peers.{Query}

-- When the read returns a text without an error: only if a majority with the leader `v` has its whole
-- log, it leads afterwards and its store answers with the text; and if the last two hold and the leader
-- and the connections that lose no call are a majority.
pub record Answered (q : Query) (v : Replica) (links : ℕ → Link)
    (r : Option ((GoString × Option ClientError) × Replica × (ℕ → Link))) : Type 0 where
  pub caught_up : v.node.commit_index ≡ v.node.last_applied
  pub after : ℕ → Link
  pub nexts : List ℤ
  pub matches : List ℤ
  pub backed :
      (contents : GoString)
      → r ≡ some ((contents, none), with_both v nexts matches, after)
      → (is_leader (q.others (with_both v nexts matches)).node.state ≡ true)
        × (q.answer ≡ body contents)
        × MajorityHas (λ j. Agrees v (length v.node.log - 1) (after j).0) v
  pub complete :
      (contents : GoString)
      → is_leader (q.others (with_both v nexts matches)).node.state ≡ true
      → q.answer ≡ body contents
      → v.node.meta.n_replicas < 2 * (reliable links (targets_of v) + 1)
      → r ≡ some ((contents, none), with_both v nexts matches, after)
  pub replicas :
      (res : GoString × Option ClientError) (v' : Replica) (peers : ℕ → Link)
      → r ≡ some (res, v', peers)
      → (v' ≡ with_both v nexts matches) × (peers ≡ after)

-- What follows the verdict.
unfoldable concluded :
    {F : Type 0}
    → Query
    → Replica
    → Option Bool
    → (ℕ → F)
    → Option ((GoString × Option ClientError) × Replica × (ℕ → F))
concluded q v verdict peers = elim verdict [
  | none ↦ none
  | some status ↦ some (read_command status q.answer (q.others v).node, v, peers)
]

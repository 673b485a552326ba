-- ===== src/Raft/Client/Submit.antt =====
-- raft/client.go: `WriteCommand` from the entry that it adds on, with the replicas that get it.
use distributed_dns.Base.{ℕ, Bool, true, false, Option, none, some, List, GoString, Run, ok, ◌>>=◌}
use distributed_dns.Base.Int.{ℤ, pos, sub32}
use distributed_dns.Raft.Protos.{AppendEntriesMessage, AppendEntriesResponse}
use distributed_dns.Raft.Node.{Replica, log_len}
use distributed_dns.Raft.Quorum.{received}
use distributed_dns.Raft.Replicate.{base_message}
use distributed_dns.Raft.Replicate.Broadcast.{leader_send_aes}
use distributed_dns.Raft.Client.{
  ClientError, not_replicated, Outcome, append_operation, commit_operation,
}
pub mod Majority

-- The replica and the error, and the other replicas; `none` where no verdict comes.
abbrev pub Submission : Type 0 → Type 0
Submission F = Option (Outcome × (ℕ → F))

-- After the verdict, if there is one.
unfoldable pub conclude :
    {F : Type 0} → List GoString → GoString → Replica → Option Bool → (ℕ → F) → Submission F
conclude operation client w none peers = none
conclude operation client w (some true) peers =
    some ((commit_operation operation client w, none), peers)
conclude operation client w (some false) peers = some ((w, some not_replicated), peers)

-- The number bounds the rounds of each exchange.
unfoldable pub submit :
    {F : Type 0}
    → (AppendEntriesMessage → F → Run (F × Option AppendEntriesResponse))
    → ℕ
    → List GoString
    → GoString
    → Replica
    → (ℕ → F)
    → Run (Submission F)
unfolding conclude
submit call fuel operation client w peers = do
  leader ← append_operation operation client w
  let upper = sub32 (log_len leader.node.log) (pos 1)
  sent ← leader_send_aes call fuel upper (base_message leader.node) leader peers
  ok (elim sent [
    | none ↦ none
    | some (w', tally, peers') ↦ conclude operation client w' (received tally.sent) peers'
  ])

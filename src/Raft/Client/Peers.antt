-- ===== src/Raft/Client/Peers.antt =====
-- raft/client.go: the whole of `WriteCommand` and `ReadCommand`, with `StaleReadCheck`, and the replicas
-- that they send to. `peers` is what these are when the sending begins.
use distributed_dns.Base.{
  ℕ, Bool, not, ◌&&◌, Option, none, some, List, GoString, Run, ok, ◌>>=◌, if◌then◌else◌,
}
use distributed_dns.Base.Int.{ℤ, pos, sub32}
use distributed_dns.Raft.Protos.{AppendEntriesMessage, AppendEntriesResponse}
use distributed_dns.Raft.Node.{Replica, log_len}
use distributed_dns.Raft.States.{is_leader}
use distributed_dns.Raft.Quorum.{Tally, received}
use distributed_dns.Raft.Replicate.{base_message}
use distributed_dns.Raft.Replicate.Broadcast.{leader_send_aes}
use distributed_dns.Raft.Client.{
  ClientError, not_leader, duplicate, no_value, is_duplicate, needs_value, says_no_value,
  HttpResult, read_command,
}
use distributed_dns.Raft.Client.Reads.{await_applied}
use distributed_dns.Raft.Client.Submit.{Submission, submit}
pub mod Reads
pub mod Backing

-- What other goroutines do during a write: in the sleeps, between the two locks, and while the value is
-- read; and what the read returns.
pub record Write : Type 0 where
  pub sleeps : List (Replica → Replica)
  pub relocking : Replica → Replica
  pub while_reading : Replica → Replica
  pub read : Option GoString

-- What happens during a read: in the sleeps, while the heartbeats are sent, and at the local store.
pub record Query : Type 0 where
  pub sleeps : List (Replica → Replica)
  pub others : Replica → Replica
  pub answer : HttpResult

-- The replica that the entry is added at.
abbrev pub sender : Bool → Write → Replica → Replica
sender needs wr u = if needs then wr.while_reading u else u

module _ {F : Type 0} (call : AppendEntriesMessage → F → Run (F × Option AppendEntriesResponse))
    (fuel : ℕ) where
  -- `WriteCommand` from the write lock on.
  unfoldable pub write_locked :
      List GoString → GoString → Write → Replica → (ℕ → F) → Run (Submission F)
  write_locked operation client wr u peers =
      if is_leader u.node.state
      then (do
        equal ← is_duplicate operation client u.node
        if equal then ok (some ((u, some duplicate), peers)) else (do
          needs ← needs_value operation
          if needs && says_no_value wr.read
              then ok (some ((wr.while_reading u, some no_value), peers))
              else submit call fuel operation client (sender needs wr u) peers))
      else ok (some ((u, some not_leader), peers))

  -- `none` while it waits for ever.
  unfoldable pub write_key :
      List GoString → GoString → Write → Replica → (ℕ → F) → Run (Submission F)
  unfolding write_locked
  write_key operation client wr w peers = elim (await_applied wr.sleeps w) [
    | none ↦ ok none
    | some v ↦ write_locked operation client wr (wr.relocking v) peers
  ]

  unfoldable pub stale_read_check : Replica → (ℕ → F) → Run (Option (Replica × Tally × (ℕ → F)))
  stale_read_check v peers =
      leader_send_aes call fuel (sub32 (log_len v.node.log) (pos 1)) (base_message v.node) v peers

  -- The text and the error, the replica that the heartbeats leave, and the peers.
  unfoldable pub query_key :
      Query → Replica → (ℕ → F) → Run (Option ((GoString × Option ClientError) × Replica × (ℕ → F)))
  unfolding stale_read_check
  query_key q w peers = elim (await_applied q.sleeps w) [
    | none ↦ ok none
    | some v ↦ do
      sent ← stale_read_check v peers
      ok (elim sent [
        | none ↦ none
        | some (v', tally, peers') ↦ elim (received tally.sent) [
          | none ↦ none
          | some status ↦ some (read_command status q.answer (q.others v').node, v', peers')
        ]
      ])
  ]

-- ===== src/Raft/Invariant.antt =====
-- What holds of a node between any two of its handlers, and what a leader puts into a message.
use distributed_dns.Base.{
  ℕ, suc, ◌+◌, ◌-◌, ◌<◌, ◌^◌, ◌≡◌, ◌⊎◌, some, List, length, get_elem?, lookup, StringMap,
}
use distributed_dns.Base.Int.{ℤ, pos, negsuc, minus_one, ◌≤ℤ◌, ◌<ℤ◌}
use distributed_dns.Raft.Protos.{LogEntry, AppendEntriesMessage}
use distributed_dns.Raft.Node.{
  RaftNode, Replica, Value, int32_value, log_value, Fits, key_term, key_voted, key_log, key_commit,
  key_applied,
}

-- The indices are in order: what is applied is committed, and what is committed is in the log.
pub record IsWellFormed (n : RaftNode) : Type 0 where
  pub fits : Fits n.log
  pub applied : minus_one ≤ℤ n.last_applied
  pub ordered : n.last_applied ≤ℤ n.commit_index
  pub within : n.commit_index <ℤ pos (length n.log)

-- The map holds the five persisted fields of the node.
pub record Keeps (m : StringMap Value) (n : RaftNode) : Type 0 where
  pub term : lookup key_term m ≡ some (int32_value n.current_term)
  pub voted : lookup key_voted m ≡ some (int32_value n.voted_for)
  pub log : lookup key_log m ≡ some (log_value n.log)
  pub commit : lookup key_commit m ≡ some (int32_value n.commit_index)
  pub applied : lookup key_applied m ≡ some (int32_value n.last_applied)

-- The file holds the persisted fields of the node as it is now.
abbrev pub IsDurable : Replica → Type 0
IsDurable w = (m : StringMap Value) × (w.saved ≡ some m) × Keeps m w.node

-- The index after a previous index.
abbrev pub start_of : ℤ → ℕ
start_of (pos p) = suc p
start_of (negsuc n) = 0

-- A previous index of a message is -1 or an index, and the entries fit a log of `int32` length.
pub record IsSane (msg : AppendEntriesMessage) : Type 0 where
  pub prev : minus_one ≤ℤ msg.prev_log_index
  pub small : start_of msg.prev_log_index + length msg.entries < 2 ^ 31 - 1

-- The log has the entry that the message builds on.
abbrev pub Consistent : List LogEntry → AppendEntriesMessage → Type 0
Consistent log msg =
    (msg.prev_log_index ≡ minus_one)
    ⊎ ((p : ℕ) × (e : LogEntry) × (msg.prev_log_index ≡ pos p)
        × (get_elem? log p ≡ some e)
        × (e.term ≡ msg.prev_log_term))

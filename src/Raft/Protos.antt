-- ===== src/Raft/Protos.antt =====
-- raft/protos: the messages between replicas and the entries of the log.
use distributed_dns.Base.{Bool, List, GoString}
use distributed_dns.Base.Int.{ℤ}

-- `operation` is [POST/PUT/DELETE/NO-OP] [<id, optional>] [<value, optional>].
pub record LogEntry : Type 0 where
  pub term : ℤ
  pub operation : List GoString
  pub clientid : GoString

pub record RequestVoteMessage : Type 0 where
  pub term : ℤ
  pub candidate_id : ℤ
  pub last_log_index : ℤ
  pub last_log_term : ℤ

pub record RequestVoteResponse : Type 0 where
  pub term : ℤ
  pub vote_granted : Bool

pub record AppendEntriesMessage : Type 0 where
  pub term : ℤ
  pub leader_id : ℤ
  pub prev_log_index : ℤ
  pub prev_log_term : ℤ
  pub leader_commit : ℤ
  pub entries : List LogEntry
  pub leader_addr : GoString
  pub latest_client : GoString

pub record AppendEntriesResponse : Type 0 where
  pub term : ℤ
  pub success : Bool

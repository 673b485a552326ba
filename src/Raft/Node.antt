-- ===== src/Raft/Node.antt =====
-- raft/raft_node.go: the state of a replica, and `PersistToStorage` of raft/storage.go.
use distributed_dns.Base.{
  ℕ, ◌≡◌, ◌<◌, ◌^◌, ◌-◌, Bool, Option, none, some, List, ◌∷◌, GoString, bytes, StringMap, insert,
  length, get_elem?, Run, ok, fault, panic,
}
use distributed_dns.Base.Int.{ℤ, pos, negsuc, int32}
use distributed_dns.Raft.Protos.{LogEntry}

pub data RaftNodeState : Type 0 where
  follower candidate leader down : RaftNodeState

-- The replica's number and the number of replicas are not negative. Of a client stub only whether
-- it is nil matters here.
pub record NodeMetadata : Type 0 where
  pub n_replicas : ℕ
  pub replica_id : ℕ
  pub peer_replica_clients : List Bool
  pub leader_address : GoString
  pub node_address : GoString
  pub latest_client : GoString

pub record RaftNode : Type 0 where
  pub meta : NodeMetadata
  pub track_message : StringMap (List GoString)
  pub current_term : ℤ
  pub voted_for : ℤ
  pub log : List LogEntry
  pub commit_index : ℤ
  pub last_applied : ℤ
  pub state : RaftNodeState
  pub next_index : List ℤ
  pub match_index : List ℤ

-- The values that the map of a `Storage` holds.
pub data Value : Type 0 where
  int32_value : ℤ → Value
  log_value : List LogEntry → Value

-- What a handler does beside changing the node: sends on channels and goroutines that it starts.
pub data Effect : Type 0 where
  -- `node.electionResetEvent <- true`
  reset_timer : Effect
  -- the same in a goroutine of its own
  spawn_reset : Effect
  -- `node.stopElectiontimer <- true`
  stop_timer : Effect
  -- `go node.RunElectionTimer`
  run_timer : Effect
  -- `node.commits_ready <- k`
  commits_ready : ℤ → Effect
  -- the goroutine of `StartElection` for a replica
  ask_vote : ℕ → Effect

-- A replica: the node, the map of `node.storage`, the map that was last encoded into the file, and
-- the effects so far, the latest first.
pub record Replica : Type 0 where
  pub node : RaftNode
  pub storage : StringMap Value
  pub saved : Option (StringMap Value)
  pub effects : List Effect

abbrev pub key_term : GoString
key_term = bytes "currentTerm"

abbrev pub key_voted : GoString
key_voted = bytes "votedFor"

abbrev pub key_log : GoString
key_log = bytes "log"

abbrev pub key_commit : GoString
key_commit = bytes "commitIndex"

abbrev pub key_applied : GoString
key_applied = bytes "lastApplied"

-- The five calls of `Set`.
unfoldable pub store_node : RaftNode → StringMap Value → StringMap Value
store_node n m = insert key_applied (int32_value n.last_applied) (
    insert key_commit (int32_value n.commit_index) (
      insert key_log (log_value n.log) (
        insert key_voted (int32_value n.voted_for)
          (insert key_term (int32_value n.current_term) m))))

-- `PersistToStorage`
abbrev pub persist : Replica → Replica
persist w = record w {
  storage = store_node w.node w.storage;
  saved = some (store_node w.node w.storage);
}

abbrev pub emit : Effect → Replica → Replica
emit e w = record w { effects = e ∷ w.effects }

-- `node.log[i]`, which panics out of range.
abbrev pub entry_at : List LogEntry → ℤ → Run LogEntry
entry_at log (pos i) = elim (get_elem? log i) [ none ↦ fault panic | some e ↦ ok e ]
entry_at log (negsuc i) = fault panic

-- `int32(len(node.log))`
abbrev pub log_len : List LogEntry → ℤ
log_len log = int32 (length log)

-- The log is short enough for its length to be an `int32`.
abbrev pub Fits : List LogEntry → Type 0
Fits log = length log < 2 ^ 31 - 1

pub entry_at-pos :
    (log : List LogEntry) (i : ℕ) {e : LogEntry}
    → get_elem? log i ≡ some e
    → entry_at log (pos i) ≡ ok e
entry_at-pos log i h = rw (h, entry_at)

-- ===== src/Raft/Persist.antt =====
-- raft/storage.go: the five fields that `PersistToStorage` keeps.
use distributed_dns.Base.{refl, StringMap, lookup-insert, str_eq}
use distributed_dns.Raft.Node.{NodeMetadata, RaftNode, Replica, Value, store_node, persist}
use distributed_dns.Raft.Invariant.{Keeps, IsDurable}

-- The map holds the five fields of the node that was stored last.
pub store_node-Keeps : (n : RaftNode) (m : StringMap Value) → Keeps (store_node n m) n
unfolding store_node str_eq
store_node-Keeps n m = record {
  term = simp lookup-insert;
  voted = simp lookup-insert;
  log = simp lookup-insert;
  commit = simp lookup-insert;
  applied = simp lookup-insert;
}

pub persist-IsDurable : (w : Replica) → IsDurable (persist w)
persist-IsDurable w = (store_node w.node w.storage, refl, store_node-Keeps w.node w.storage)

-- What is persisted does not hold the node's metadata.
pub Keeps-meta :
    {m : StringMap Value} {n : RaftNode} (meta : NodeMetadata)
    → Keeps m n
    → Keeps m (record n { meta = meta })
Keeps-meta meta k = record {
  term = k.term;
  voted = k.voted;
  log = k.log;
  commit = k.commit;
  applied = k.applied;
}

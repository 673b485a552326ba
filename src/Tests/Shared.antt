-- ===== src/Tests/Shared.antt =====
-- Two goroutines with one message, and what it does to a replica.
use distributed_dns.Base.{◌≡◌, refl, arith, true, some, [], ◌∷◌, Returns, ok, bytes, get_elem?}
use distributed_dns.Base.Int.{pos, minus_one, add32, sub32, int32, wrap32, ◌+ℤ◌, ◌-ℤ◌}
use distributed_dns.Raft.Protos.{AppendEntriesMessage}
use distributed_dns.Raft.Node.{RaftNode, RaftNodeState, Replica}
use distributed_dns.Raft.Election.{no_op}
use distributed_dns.Raft.Append.{
  append_entries, append_current, prev_matches, accept_leader, append_matched, merge,
  commit_entries,
}
use distributed_dns.Raft.Replicate.{base_message, term_before, copy_entries, fill_message}
use distributed_dns.Raft.Replicate.Shared.{
  Sending, Finds, locate, fill, send, perform_all, mixed, perform_all-mixed,
}
use distributed_dns.Tests.Replicas.{leader_0, posted, replica_of, node_of, short_log}

-- Replica 1 needs the entries from index 1 on, replica 2 those from index 2 on.
abbrev leader_node : RaftNode
leader_node = record leader_0.node { next_index = pos 3 ∷ pos 1 ∷ pos 2 ∷ [] }

abbrev first : Finds leader_node (pos 2) 1
unfolding term_before copy_entries add32 sub32 wrap32 ◌+ℤ◌ ◌-ℤ◌
first = record {
  next = pos 1;
  term = pos 1;
  entries = no_op (pos 2) ∷ posted 2 (bytes "k") ∷ [];
  reads = refl;
  before = refl;
  copies = refl;
}

abbrev second : Finds leader_node (pos 2) 2
unfolding term_before copy_entries add32 sub32 wrap32 ◌+ℤ◌ ◌-ℤ◌
second = record {
  next = pos 2;
  term = pos 2;
  entries = posted 2 (bytes "k") ∷ [];
  reads = refl;
  before = refl;
  copies = refl;
}

abbrev start : Sending
start = record { msg = base_message leader_node; copied = λ id. []; sent = [] }

-- Replica 2 is sent its own entries behind the entry that replica 1 has.
perform_all-mixed_example :
    ((s' : Sending) × (perform_all leader_node (pos 2) (locate 2 ∷ fill 2 ∷ send 2 ∷ []) start
        ≡ ok s')
      × (s'.sent ≡ (2, mixed leader_node (pos 2) second second start.msg) ∷ [])
      × (fill_message leader_node.log (sub32 second.next (pos 1)) (pos 2) start.msg
          ≡ ok (mixed leader_node (pos 2) second second start.msg)))
    × ((s' : Sending) × (perform_all leader_node
            (pos 2)
            (locate 2 ∷ locate 1 ∷ fill 2 ∷ send 2 ∷ [])
            start
          ≡ ok s')
        × (s'.sent ≡ (2, mixed leader_node (pos 2) first second start.msg) ∷ []))
perform_all-mixed_example = perform_all-mixed leader_node (pos 2) second first start (omega arith)

abbrev wrong_message : AppendEntriesMessage
wrong_message = mixed leader_node (pos 2) first second start.msg

abbrev behind : Replica
behind = replica_of (node_of 2 RaftNodeState.follower 2 minus_one short_log)

-- A replica with one entry takes the leader's third for its second, and answers with success.
wrong_index : Returns (append_entries wrong_message behind) λ r.
    (r.1.success ≡ true)
    × (get_elem? r.0.node.log 1 ≡ some (posted 2 (bytes "k")))
    × (get_elem? leader_node.log 1 ≡ some (no_op (pos 2)))
unfolding append_entries append_current prev_matches sub32 wrap32 ◌-ℤ◌ first int32 accept_leader
    append_matched merge commit_entries
wrong_index = (_, refl, (refl, refl, refl))

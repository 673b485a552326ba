-- ===== src/Tests/Commands.antt =====
-- Commands at a leader, the entries that reach its store, and a restart.
use distributed_dns.Base.{
  ◌≡◌, ◌++◌, refl, arith, Bool, Option, true, false, lookup, ◌&&◌, none, some, List, [], ◌∷◌,
  GoString, bytes, Returns, ok, str_eq,
}
use distributed_dns.Base.Int.{pos}
use distributed_dns.Raft.Protos.{LogEntry}
use distributed_dns.Raft.Node.{follower, Replica}
use distributed_dns.Raft.Invariant.{IsWellFormed}
use distributed_dns.Raft.Client.{
  entry_of, post_op, put_op, is_duplicate, needs_value, Surroundings, says_no_value, write_command,
}
use distributed_dns.Raft.Client.Writes.{
  quiet, Acknowledged, write_command-Acknowledged, write_command-appends,
}
use distributed_dns.Raft.Apply.{StoreRequest, post_request, put_request, apply_commits}
use distributed_dns.Raft.Apply.Laws.{is_post, is_no_op}
use distributed_dns.Raft.Apply.Round.{Round, apply_commits-Round}
use distributed_dns.Tests.Replicas.{leader_0, node_of, replica_of, stale_log}

read_value : (true && says_no_value (some (bytes "v"))) ≡ false
unfolding str_eq
read_value = refl

abbrev operation : List GoString
operation = put_op ∷ bytes "k" ∷ bytes "w" ∷ []

abbrev client : GoString
client = bytes "c"

leader_valid : IsWellFormed leader_0.node
leader_valid = omega arith

fresh : is_duplicate operation client leader_0.node ≡ ok false
unfolding is_duplicate lookup
fresh = refl

needed : needs_value operation ≡ ok true
unfolding needs_value str_eq
needed = refl

write_command-Acknowledged_example :
    Returns
      (write_command operation client (quiet (some (bytes "v")) true) leader_0)
      (Acknowledged operation client leader_0)
write_command-Acknowledged_example =
    write_command-Acknowledged operation client leader_0 leader_valid (omega arith)
      (some (bytes "v")) true (omega arith) refl fresh needed read_value

abbrev repeated : List GoString
repeated = post_op ∷ bytes "k" ∷ bytes "v" ∷ []

-- The last write was of this client.
abbrev busy_leader : Replica
busy_leader = record leader_0 {
  node = record leader_0.node {
    track_message = (client, repeated) ∷ [];
    meta = record leader_0.node.meta { latest_client = client };
  };
}

-- While the leader reads, a message of a leader of term 4 makes it a follower.
abbrev stepping_down : Surroundings
stepping_down = record {
  while_reading = λ s. replica_of (node_of 0 follower 4 (pos 1) stale_log);
  read = some (bytes "v");
  while_sending = λ s. s;
  verdict = false;
}

write_command-appends_example : Returns (write_command operation client stepping_down leader_0) λ r.
    r.0.node.log
    ≡ (stepping_down.while_reading leader_0).node.log
      ++ entry_of operation client (stepping_down.while_reading leader_0).node ∷ []
write_command-appends_example =
    write_command-appends operation client stepping_down leader_0 refl fresh needed read_value
      (omega arith) (omega arith) (λ s. refl)

abbrev put_entry : LogEntry
put_entry = record { term = pos 2; operation = operation; clientid = client }

-- A store that knows no key: a PUT fails.
abbrev refusing : StoreRequest → List StoreRequest → List StoreRequest × Bool
refusing (put_request k v) s = (s, false)
refusing r s = (r ∷ s, true)

-- Two entries more are committed than applied.
abbrev behind : Replica
behind = record leader_0 { node = record leader_0.node { commit_index = pos 2 } }

abbrev leader_requests : List (Option StoreRequest)
leader_requests = none ∷ none ∷ some (post_request (bytes "k") (bytes "v")) ∷ []

apply_commits-Round_example :
    Returns (apply_commits refusing (pos 2) behind []) (Round refusing 2 leader_requests behind [])
apply_commits-Round_example =
    apply_commits-Round refusing 2 behind leader_requests [] (omega arith)
      (is_no_op, (is_no_op, (is_post (bytes "k") (bytes "v"), tt))) (omega arith)

-- ===== src/Raft/Cluster/System.antt =====
-- A cluster of `n` replicas: what each of them does, and the vote requests between them, in any order.
-- Messages of `AppendEntries` and replies to them are any that can be handled; a call that is lost
-- never goes on. After a restart a call of the old process may still go on.
use distributed_dns.Base.{ℕ, ◌<◌, ◌≡◌, Bool, false, some, none, [], ok, Gob, put_at, get_elem?, ltb}
use distributed_dns.Base.Int.{ℤ, ◌<ℤ◌}
use distributed_dns.Raft.Protos.{
  AppendEntriesMessage, AppendEntriesResponse, RequestVoteMessage, RequestVoteResponse,
}
use distributed_dns.Raft.Node.{candidate, RaftNode, Replica, Value}
use distributed_dns.Raft.States.{to_candidate}
use distributed_dns.Raft.Vote.{request_vote}
use distributed_dns.Raft.Append.{append_entries}
use distributed_dns.Raft.Election.{vote_message, vote_reply}
use distributed_dns.Raft.Storage.{new_node}
use distributed_dns.Raft.Apply.{StoreRequest}
use distributed_dns.Raft.Cluster.Ballot.{idle, spawned, asking, replied, ended}
use distributed_dns.Raft.Cluster.Invariant.{Calls}
use distributed_dns.Raft.Cluster.Calls.{put_call, put_count, spawn}
use distributed_dns.Raft.Cluster.Elections.{reboot}
use distributed_dns.Raft.Cluster.Local.{Local}

-- `received i t` is the variable `received_votes` of the election that replica `i` started in term
-- `t`, and `calls i t j` its goroutine for replica `j`.
pub record Cluster : Type 0 where
  pub nodes : ℕ → Replica
  pub received : ℕ → ℤ → ℕ
  pub calls : Calls

-- When the goroutines of an election read the term: `prompt` ones while the election lasts, `late`
-- ones at any time, as nothing in the code hinders.
pub data Timing : Type 0 where
  prompt late : Timing

abbrev pub ReadsIn : Timing → RaftNode → ℤ → Type 0
ReadsIn prompt n t = (n.state ≡ candidate) × (n.current_term ≡ t)
ReadsIn late n t = Unit

abbrev pub has_stub : Replica → ℕ → Bool
has_stub w j = elim (get_elem? w.node.meta.peer_replica_clients j) [
  | none ↦ false
  | some stub ↦ stub
]

abbrev pub new_cluster : ℕ → Cluster
new_cluster n = record {
  nodes = λ i. record { node = new_node n i; storage = []; saved = none; effects = [] };
  received = λ i t. 0;
  calls = λ i t j. idle;
}

module _ (gob : Gob Value) {S : Type 0} (http : StoreRequest → S → S × Bool) (timing : Timing)
    (n : ℕ) where
  pub data Step (s : Cluster) : Cluster → Type 0 where
    -- The election timer runs out. The term does not pass the largest `int32`.
    timeout :
        (i : ℕ)
        → i < n
        → (s.nodes i).node.current_term <ℤ (to_candidate (s.nodes i)).node.current_term
        → Step s (record {
          nodes = put_at s.nodes i (to_candidate (s.nodes i));
          received = put_count s.received i (to_candidate (s.nodes i)).node.current_term 1;
          calls =
              spawn (has_stub (s.nodes i)) i (to_candidate (s.nodes i)).node.current_term s.calls;
        })
    -- A goroutine of an election reads the arguments of its request.
    ask :
        (i : ℕ) (t : ℤ) (j : ℕ) {msg : RequestVoteMessage}
        → j < n
        → s.calls i t j ≡ spawned
        → ReadsIn timing (s.nodes i).node t
        → vote_message (s.nodes i).node ≡ ok msg
        → Step s (record s { calls = put_call s.calls i t j (asking msg) })
    -- The other replica handles the request.
    vote :
        (i : ℕ) (t : ℤ) (j : ℕ) {msg : RequestVoteMessage} {r : Replica × RequestVoteResponse}
        → j < n
        → s.calls i t j ≡ asking msg
        → request_vote msg (s.nodes j) ≡ ok r
        → Step s (record s {
          nodes = put_at s.nodes j r.0;
          calls = put_call s.calls i t j (replied r.1);
        })
    -- The goroutine handles the reply.
    reply :
        (i : ℕ) (t : ℤ) (j : ℕ) {r : RequestVoteResponse}
        → j < n
        → s.calls i t j ≡ replied r
        → Step s (record {
          nodes = put_at s.nodes i (vote_reply r (s.received i t) (s.nodes i)).0;
          received = put_count s.received i t (vote_reply r (s.received i t) (s.nodes i)).1;
          calls =
              put_call s.calls i t j
                (ended (ltb (s.received i t) (vote_reply r (s.received i t) (s.nodes i)).1));
        })
    append :
        (i : ℕ) (msg : AppendEntriesMessage) {r : Replica × AppendEntriesResponse}
        → append_entries msg (s.nodes i) ≡ ok r
        → Step s (record s { nodes = put_at s.nodes i r.0 })
    work :
        (i : ℕ) {w : Replica}
        → Local http (s.nodes i) w
        → Step s (record s { nodes = put_at s.nodes i w })
    -- The process ends and starts again on its file.
    restart :
        (i : ℕ) {w : Replica}
        → reboot gob n i (s.nodes i).saved ≡ ok w
        → Step s (record s { nodes = put_at s.nodes i w })

  pub data Reach : Cluster → Type 0 where
    start : Reach (new_cluster n)
    later : {s u : Cluster} → Reach s → Step s u → Reach u

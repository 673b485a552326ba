-- ===== src/Raft/Cluster/Safety.antt =====
-- The invariant of a cluster along its steps, for goroutines that read the term in time, and what it
-- says of the leaders.
use distributed_dns.Base.{ℕ, ◌<◌, ◌≡◌, inl, refl, arith, Bool, Gob}
use distributed_dns.Raft.Node.{leader, Value}
use distributed_dns.Raft.Apply.{StoreRequest}
use distributed_dns.Raft.Cluster.Ballot.{ballot}
use distributed_dns.Raft.Cluster.Invariant.{Moves-Change}
use distributed_dns.Raft.Cluster.Handlers.{append_entries-Proceeds}
use distributed_dns.Raft.Cluster.Elections.{reboot-Proceeds}
use distributed_dns.Raft.Cluster.Local.{Local-Proceeds}
use distributed_dns.Raft.Cluster.System.{
  Cluster, prompt, new_cluster, Step, timeout, ask, vote, reply, append, work, restart, Reach,
  start, later,
}
use distributed_dns.Raft.Cluster.Changes.{IsSafe, put-Inv, put-IsReplica}
use distributed_dns.Raft.Cluster.Votes.{moved, stood, asked, voted}
use distributed_dns.Raft.Cluster.Majority.{leaders_agree}
use distributed_dns.Raft.Cluster.Replies.{heard}

new-IsSafe : (n : ℕ) → IsSafe n (new_cluster n)
new-IsSafe n = record {
  election = record {
    stands = λ i e. absurd (ground arith);
    leads = λ i e. absurd (ground arith);
    voters = λ i j e. absurd (ground arith);
    sound = λ i t j. tt;
    others = λ i t. refl;
    cast = λ i t j l. absurd l;
    once = λ i k t j l l'. absurd l;
    counted = λ i t. omega arith;
    won = λ i e. absurd (ground arith);
  };
  replicas = λ i. record { size = refl; number = refl; saved = inl (refl, refl, refl) };
}

module _ (gob : Gob Value) {S : Type 0} (http : StoreRequest → S → S × Bool) (n : ℕ) where
  pub Step-IsSafe : {s u : Cluster} → Step gob http prompt n s u → IsSafe n s → IsSafe n u
  Step-IsSafe (timeout i lt rises) safe = stood safe i rises
  Step-IsSafe (ask i t j {msg} lt e now run) safe = asked safe i t j msg lt e now.1 run
  Step-IsSafe (vote i t j {msg} {r} lt e run) safe = voted safe i t j msg r lt e run
  Step-IsSafe (reply i t j {r} lt e) safe = heard safe i t j r lt e
  Step-IsSafe {s} (append i msg {r} run) safe =
      moved safe i r.0 (append_entries-Proceeds i msg (s.nodes i) r run)
  Step-IsSafe (work i {w} l) safe = moved safe i w (Local-Proceeds http i l)
  Step-IsSafe {s} (restart i {w} run) safe =
      let (moves, own) = reboot-Proceeds gob n i (s.nodes i) w (safe.replicas i) run in
      record {
        election =
            put-Inv s.nodes safe.election i w
              (Moves-Change safe.election i (ballot (s.nodes i).node) (ballot w.node) refl moves);
        replicas = put-IsReplica s.nodes safe.replicas i w own;
      }

  pub Reach-IsSafe : {s : Cluster} → Reach gob http prompt n s → IsSafe n s
  Reach-IsSafe start = new-IsSafe n
  Reach-IsSafe (later r st) = Step-IsSafe st (Reach-IsSafe r)

  -- In every state that a cluster of `n` replicas reaches by the steps of its replicas, in any
  -- order and with restarts from their files, two of them that lead in the same term are one
  -- replica, when the goroutines of an election read its term while the election lasts. Terms stay
  -- below the largest `int32`.
  pub election_safety :
      {s : Cluster}
      → Reach gob http prompt n s
      → (i k : ℕ) → i < n
      → k < n
      → (s.nodes i).node.state ≡ leader
      → (s.nodes k).node.state ≡ leader
      → (s.nodes i).node.current_term ≡ (s.nodes k).node.current_term
      → i ≡ k
  election_safety r i k lt lt' lead lead' same =
      leaders_agree (Reach-IsSafe r).election i k lead lead' same lt lt'

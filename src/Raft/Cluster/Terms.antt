-- ===== src/Raft/Cluster/Terms.antt =====
-- The terms of the replicas of a cluster along its steps.
use distributed_dns.Base.{ℕ, ◌≡◌, inl, inr, ap, arith, Bool, Bool-cases, Gob, put_at, ◌==◌, ==_iff}
use distributed_dns.Base.Int.{pos, ◌≤ℤ◌}
use distributed_dns.Raft.Node.{Replica, Value}
use distributed_dns.Raft.Election.{vote_reply}
use distributed_dns.Raft.Apply.{StoreRequest}
use distributed_dns.Raft.Cluster.Ballot.{
  Ballot, ballot, Moves, stay, rise, step_down, rejoin, stand,
}
use distributed_dns.Raft.Cluster.Handlers.{
  append_entries-Proceeds, request_vote-Votes, catch_up-Proceeds,
}
use distributed_dns.Raft.Cluster.Elections.{vote_reply-Counts, reboot-Proceeds}
use distributed_dns.Raft.Cluster.Local.{Local-Proceeds}
use distributed_dns.Raft.Cluster.System.{
  Cluster, prompt, Step, timeout, ask, vote, reply, append, work, restart, Reach, start, later,
}
use distributed_dns.Raft.Cluster.Changes.{IsSafe}
use distributed_dns.Raft.Cluster.Safety.{Reach-IsSafe}

Moves-le : {i : ℕ} {b b' : Ballot} → Moves i b b' → b.term ≤ℤ b'.term
Moves-le stay = omega arith
Moves-le (rise t lt) = omega (arith, lt)
Moves-le (step_down e) = omega arith
Moves-le rejoin = omega arith
Moves-le (stand t lt) = omega (arith, lt)

-- One replica changes, and its term does not go down.
put_at-le :
    (nodes : ℕ → Replica) (i : ℕ) (w : Replica)
    → (nodes i).node.current_term ≤ℤ w.node.current_term
    → (k : ℕ) → (nodes k).node.current_term ≤ℤ (put_at nodes i w k).node.current_term
put_at-le nodes i w le k = elim (Bool-cases (i == k)) [
  | inl here ↦ let e : i ≡ k = (==_iff i k).0 here in rw here (rw e at le)
  | inr there ↦ rw there (omega arith)
]

term_as :
    (w w' : Replica) {b : Ballot}
    → ballot w'.node ≡ b
    → w.node.current_term ≤ℤ b.term
    → w.node.current_term ≤ℤ w'.node.current_term
term_as w w' e le = rw (ap (λ x. x.term) e) le

module _ (gob : Gob Value) {S : Type 0} (http : StoreRequest → S → S × Bool) (n : ℕ) where
  pub Step-term :
      {s u : Cluster}
      → Step gob http prompt n s u
      → IsSafe n s
      → (k : ℕ) → (s.nodes k).node.current_term ≤ℤ (u.nodes k).node.current_term
  Step-term {s} (timeout i lt rises) safe = put_at-le s.nodes i _ (omega (arith, rises))
  Step-term (ask i t j lt e now run) safe = λ k. omega arith
  Step-term {s} (vote i t j {msg} {r} lt e run) safe =
      let v = request_vote-Votes msg (s.nodes j) r run in
      let le = Moves-le (catch_up-Proceeds j msg.term (s.nodes j)).moves in
      put_at-le s.nodes j r.0 (elim v.ballots [
        | inl (_, same) ↦ term_as (s.nodes j) r.0 same le
        | inr (same, _) ↦ term_as (s.nodes j) r.0 same le
      ])
  Step-term {s} (reply i t j {r} lt e) safe =
      let w' = (vote_reply r (s.received i t) (s.nodes i)).0 in
      put_at-le s.nodes i w' (elim (vote_reply-Counts i r (s.received i t) (s.nodes i)).ballots [
        | inl (_, moves) ↦ Moves-le moves
        | inr (_, _, _, _, end) ↦ elim end [
          | inl same ↦ term_as (s.nodes i) w' same (omega arith)
          | inr (same, _) ↦ term_as (s.nodes i) w' same (omega arith)
        ]
      ])
  Step-term {s} (append i msg {r} run) safe =
      put_at-le s.nodes i r.0 (Moves-le (append_entries-Proceeds i msg (s.nodes i) r run).moves)
  Step-term {s} (work i {w} l) safe =
      put_at-le s.nodes i w (Moves-le (Local-Proceeds http i l).moves)
  Step-term {s} (restart i {w} run) safe =
      put_at-le s.nodes i w
        (Moves-le (reboot-Proceeds gob n i (s.nodes i) w (safe.replicas i) run).0)

  pub Reach-term :
      {s : Cluster} → Reach gob http prompt n s → (k : ℕ) → pos 0 ≤ℤ (s.nodes k).node.current_term
  Reach-term start k = omega arith
  Reach-term (later r st) k =
      omega (arith, Reach-term r k, Step-term st (Reach-IsSafe gob http n r) k)

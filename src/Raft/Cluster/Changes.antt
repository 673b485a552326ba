-- ===== src/Raft/Cluster/Changes.antt =====
-- The invariant of a cluster, and changes of one replica or one call in it.
use mathlib.Core.Path.{fun_ext, subst}
use distributed_dns.Base.{
  ℕ, ◌≡◌, ◌≢◌, inl, inr, refl, ◌&&◌, arith, Bool-cases, put_at, ◌==◌, ==_iff,
}
use distributed_dns.Base.Int.{ℤ, ◌≤ℤ◌, ltb_ℤ, eqb_ℤ}
use distributed_dns.Raft.Node.{Replica}
use distributed_dns.Raft.States.{to_follower}
use distributed_dns.Raft.Vote.{catch_up}
use distributed_dns.Raft.Cluster.Ballot.{Ballot, ballot, Call, idle}
use distributed_dns.Raft.Cluster.Invariant.{Calls, Inv, Change, Change-Inv}
use distributed_dns.Raft.Cluster.Calls.{put_call, put_count, Goes, Goes-Inv}
use distributed_dns.Raft.Cluster.Effects.{IsReplica}
use distributed_dns.Raft.Cluster.System.{Cluster}

abbrev pub ballots : (ℕ → Replica) → ℕ → Ballot
ballots nodes i = ballot (nodes i).node

pub ballots-put_at :
    (nodes : ℕ → Replica) (i : ℕ) (w : Replica)
    → put_at (ballots nodes) i (ballot w.node) ≡ ballots (put_at nodes i w)
ballots-put_at nodes i w = fun_ext (λ j. same j)
  where
    same : (j : ℕ) → put_at (ballots nodes) i (ballot w.node) j ≡ ballots (put_at nodes i w) j
    same j = elim (Bool-cases (i == j)) [ inl here ↦ rw here refl | inr there ↦ rw there refl ]

pub record IsSafe (n : ℕ) (s : Cluster) : Type 0 where
  pub election : Inv n (ballots s.nodes) s.calls s.received
  pub replicas : (i : ℕ) → IsReplica n i (s.nodes i)

-- One replica changes, and no call.
pub put-Inv :
    {n : ℕ} (nodes : ℕ → Replica) {calls : Calls} {received : ℕ → ℤ → ℕ}
    (inv : Inv n (ballots nodes) calls received) (i : ℕ) (w : Replica)
    → Change inv i (ballot w.node)
    → Inv n (ballots (put_at nodes i w)) calls received
put-Inv {n} nodes {calls} {received} inv i w c =
    subst (λ b. Inv n b calls received) (ballots-put_at nodes i w)
      (Change-Inv inv i (ballot w.node) c)

pub put-IsReplica :
    {n : ℕ} (nodes : ℕ → Replica)
    → ((j : ℕ) → IsReplica n j (nodes j))
    → (i : ℕ) (w : Replica) → IsReplica n i w
    → (j : ℕ) → IsReplica n j (put_at nodes i w j)
put-IsReplica {n} nodes all i w own j = elim (Bool-cases (i == j)) [
  | inl here ↦ let e : i ≡ j = (==_iff i j).0 here in rw here (subst (λ k. IsReplica n k w) e own)
  | inr there ↦ rw there (all j)
]

pub put_at_twice :
    (nodes : ℕ → Replica) (i : ℕ) (v w : Replica) → put_at (put_at nodes i v) i w ≡ put_at nodes i w
put_at_twice nodes i v w = fun_ext (λ j. same j)
  where
    same : (j : ℕ) → put_at (put_at nodes i v) i w j ≡ put_at nodes i w j
    same j = elim (Bool-cases (i == j)) [ inl here ↦ rw here refl | inr there ↦ rw there refl ]

pub catch_up-le : (t : ℤ) (w : Replica) → t ≤ℤ (catch_up t w).node.current_term
unfolding catch_up to_follower
catch_up-le t w = elim (Bool-cases (ltb_ℤ w.node.current_term t)) [
  | inl newer ↦ rw newer (omega arith)
  | inr old ↦ rw old (ground arith)
]

-- A candidate that is still in the term of the request got a vote of that term.
pub caught :
    {now vote asked t mine : ℤ}
    → now ≡ vote
    → asked ≡ t
    → asked ≤ℤ vote
    → now ≤ℤ mine
    → mine ≡ t
    → t ≡ now
caught e e' le le' e'' = ground arith

-- A call goes on, and the counter stays.
pub put_count_same :
    (received : ℕ → ℤ → ℕ) (i : ℕ) (t : ℤ) → put_count received i t (received i t) ≡ received
put_count_same received i t = fun_ext (λ k. fun_ext (λ u. same k u))
  where
    same : (k : ℕ) (u : ℤ) → put_count received i t (received i t) k u ≡ received k u
    same k u = elim (Bool-cases (i == k && eqb_ℤ t u)) [
      | inl here ↦
          let e : i ≡ k = ground arith in let e' : t ≡ u = ground arith in rw here (rw (e, e') refl)
      | inr there ↦ rw there refl
    ]

pub call-Inv :
    {n : ℕ} {bal : ℕ → Ballot} {calls : Calls} {received : ℕ → ℤ → ℕ}
    (inv : Inv n bal calls received) (i : ℕ) (t : ℤ) (j : ℕ) (c : Call)
    → Goes inv i t j (received i t) c
    → Inv n bal (put_call calls i t j c) received
call-Inv {n} {bal} {calls} {received} inv i t j c g =
    subst (λ v. Inv n bal (put_call calls i t j c) v) (put_count_same received i t)
      (Goes-Inv inv i t j (received i t) c g)

-- A call that has started is for another replica.
pub not_self :
    {n : ℕ} {bal : ℕ → Ballot} {calls : Calls} {received : ℕ → ℤ → ℕ}
    (inv : Inv n bal calls received) (i : ℕ) (t : ℤ) (j : ℕ)
    → calls i t j ≢ idle
    → i ≢ j
not_self {calls = calls} inv i t j started e =
    started (subst (λ m. calls i t m ≡ idle) e (inv.others i t))

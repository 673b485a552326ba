-- ===== src/Raft/Harness/System.antt =====
-- The replicas of a cluster as a test sees them.
use distributed_dns.Base.{
  ℕ, ◌<◌, ◌≤◌, ◌≡◌, sym, ap, ◌∙◌, arith, Bool, true, some, List, get_elem?, Gob,
}
use distributed_dns.Base.Int.{pos, minus_one}
use distributed_dns.Raft.Node.{RaftNodeState, follower, candidate, leader, down, Value}
use distributed_dns.Raft.States.{is_leader}
use distributed_dns.Raft.Apply.{StoreRequest}
use distributed_dns.Raft.Cluster.System.{Cluster, prompt, Reach}
use distributed_dns.Raft.Cluster.Safety.{election_safety}
use distributed_dns.Raft.Cluster.Terms.{Reach-term}
use distributed_dns.Raft.Harness.{Slot, leads, count_leader, find_leader, check_terms}
use distributed_dns.Raft.Harness.Leaders.{
  NoneUnset, OneLeads, check_terms-Agree, find_leader-only, count_leader-le,
}

-- The places of a test hold the replicas of a cluster of `n`.
abbrev pub Shows : ℕ → Cluster → List Slot → Type 0
Shows n s ss = (i : ℕ) (a : Slot) → get_elem? ss i ≡ some a → (i < n) × (a.replica ≡ s.nodes i)

leader-of : (x : RaftNodeState) → is_leader x ≡ true → x ≡ leader
leader-of follower h = ground arith
leader-of candidate h = ground arith
leader-of leader h = cc
leader-of down h = ground arith

leads-leader : (a : Slot) → leads a ≡ true → (a.active ≡ true) × (a.replica.node.state ≡ leader)
leads-leader a l = (ground arith, leader-of a.replica.node.state (ground arith))

module _ (gob : Gob Value) {S : Type 0} (http : StoreRequest → S → S × Bool) (n : ℕ) {s : Cluster}
    (r : Reach gob http prompt n s) (ss : List Slot) (shows : Shows n s ss) where
  reached-NoneUnset : NoneUnset ss
  reached-NoneUnset i a e on unset =
      let (_, same) = shows i a e in
      let low = Reach-term gob http n r i in
      let term : (s.nodes i).node.current_term ≡ minus_one =
        ap (λ x. x.node.current_term) (sym same) ∙ unset in
      absurd (omega (arith, rw term at low))

  reached-OneLeads : check_terms ss ≡ true → OneLeads ss
  reached-OneLeads agreed i k a b e e' l l' =
      let (lt, same) = shows i a e in
      let (lt', same') = shows k b e' in
      let (on, lead) = leads-leader a l in
      let (on', lead') = leads-leader b l' in
      let terms = (check_terms-Agree ss reached-NoneUnset).0 agreed i k a b e e' on on' in
      election_safety gob http n r i k lt lt' (ap (λ x. x.node.state) (sym same) ∙ lead)
        (ap (λ x. x.node.state) (sym same') ∙ lead')
        (ap (λ x. x.node.current_term) (sym same) ∙ (terms ∙ ap (λ x. x.node.current_term) same'))

  -- In a state that a cluster reaches whose goroutines of an election read its term while the
  -- election lasts, a test that looks at replicas of the cluster and finds that the terms of the
  -- active ones agree counts at most one leader.
  pub check_terms-reached : check_terms ss ≡ true → count_leader ss ≤ 1
  check_terms-reached agreed = count_leader-le ss (reached-OneLeads agreed)

  pub find_leader-reached :
      (k : ℕ) (a : Slot)
      → check_terms ss ≡ true
      → get_elem? ss k ≡ some a
      → leads a ≡ true
      → (count_leader ss ≡ 1) × (find_leader ss ≡ pos k)
  find_leader-reached k a agreed = find_leader-only ss k a (reached-OneLeads agreed)

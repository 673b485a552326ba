-- ===== src/Raft/Cluster/Majority.antt =====
-- The replicas that voted for a leader, counted.
use distributed_dns.Base.{
  ℕ, ◌+◌, ◌*◌, ◌≤◌, ◌<◌, ◌≡◌, ◌≢◌, ◌⊎◌, inl, inr, refl, arith, true, false, sum, sum_le, sum_add,
  sum-point, point, ◌==◌, Bool-cases, ==_iff,
}
use distributed_dns.Base.Int.{ℤ}
use distributed_dns.Raft.Node.{leader}
use distributed_dns.Raft.Cluster.Ballot.{Ballot, Call, idle, spawned, asking, replied, ended}
use distributed_dns.Raft.Cluster.Invariant.{Calls, IsLive, weight, Inv}

weight-cases : (now t : ℤ) (c : Call) → (weight c ≡ 0) ⊎ (IsLive now t c × (weight c ≡ 1))
weight-cases now t (ended true) = inr (tt, refl)
weight-cases now t (ended false) = inl refl
weight-cases now t idle = inl refl
weight-cases now t spawned = inl refl
weight-cases now t (asking msg) = inl refl
weight-cases now t (replied r) = inl refl

module _ {n : ℕ} {bal : ℕ → Ballot} {calls : Calls} {received : ℕ → ℤ → ℕ}
    (inv : Inv n bal calls received) where
  open inv use {others, cast, once, won}

  -- Two leaders of one term are one replica: their majorities share a voter.
  module _ (i k : ℕ) (lead : (bal i).state ≡ leader) (lead' : (bal k).state ≡ leader)
      (same : (bal i).term ≡ (bal k).term) where
    -- The votes of a replica for the two, their own included.
    abbrev given : ℕ → ℕ
    given m =
        (point i m + weight (calls i (bal i).term m))
        + (point k m + weight (calls k (bal i).term m))

    own_votes : (m : ℕ) → i ≢ k → point i m + point k m ≤ 1
    own_votes m ne = ground arith

    -- A replica that votes for one of them is neither.
    own_i :
        i ≢ k
        → (m : ℕ) → IsLive (bal i).term (bal i).term (calls i (bal i).term m)
        → point i m + point k m ≡ 0
    own_i ne m l = ground (arith, others i (bal i).term, cast i (bal i).term m l, inv.leads k lead')

    own_k :
        i ≢ k
        → (m : ℕ) → IsLive (bal k).term (bal i).term (calls k (bal i).term m)
        → point i m + point k m ≡ 0
    own_k ne m l = ground (arith, others k (bal i).term, cast k (bal i).term m l, inv.leads i lead)

    given-le : i ≢ k → (m : ℕ) → given m ≤ 1
    given-le ne m = elim (weight-cases (bal i).term (bal i).term (calls i (bal i).term m)) [
      | inl none_i ↦ elim (weight-cases (bal k).term (bal i).term (calls k (bal i).term m)) [
        | inl none_k ↦ omega (arith, none_i, none_k, own_votes m ne)
        | inr (live_k, one_k) ↦ omega (arith, none_i, one_k, own_k (ne) m live_k)
      ]
      | inr (live_i, one_i) ↦
          elim (weight-cases (bal k).term (bal i).term (calls k (bal i).term m)) [
            | inl none_k ↦ omega (arith, one_i, none_k, own_i ne m live_i)
            | inr (live_k, one_k) ↦ absurd (ne (once i k (bal i).term m live_i live_k))
          ]
    ]

    pub leaders_agree : i < n → k < n → i ≡ k
    leaders_agree lt lt' = elim (Bool-cases (i == k)) [
      | inl here ↦ (==_iff i k).0 here
      | inr there ↦
          let ne : i ≢ k = λ e. ground arith in
          let few = sum_le n given (λ m _. given-le ne m) in
          let calls_k : n < 2 * (1 + sum n (λ m. weight (calls k (bal i).term m))) =
            rw same (won k lead') in
          let both =
            sum_add n (λ m. point i m + weight (calls i (bal i).term m))
              (λ m. point k m + weight (calls k (bal i).term m)) in
          let of_i = sum_add n (point i) (λ m. weight (calls i (bal i).term m)) in
          let of_k = sum_add n (point k) (λ m. weight (calls k (bal i).term m)) in
          absurd (
            omega (
              arith,
              few,
              won i lead,
              calls_k,
              both,
              of_i,
              of_k,
              sum-point n i lt,
              sum-point n k lt',
            ))
    ]

-- ===== src/Raft/Replicate/Heartbeats.antt =====
-- raft/send_AEs.go: `HeartBeats`. The message is filled after the lock was released.
use distributed_dns.Base.{
  ℕ, zero, suc, ◌≡◌, refl, sym, ap, ◌∙◌, arith, Bool, true, Bool-cases, inl, inr, none, some,
  some_injective, List, [], ◌∷◌, get_elem?, if◌then◌else◌,
}
use distributed_dns.Base.Int.{ℤ, pos, sub32}
use distributed_dns.Raft.Protos.{AppendEntriesMessage}
use distributed_dns.Raft.Node.{Replica, log_len}
use distributed_dns.Raft.States.{is_leader}
use distributed_dns.Raft.Replicate.{base_message}

-- One tick: whether the context is cancelled, and what other goroutines do between the test of the
-- state and the message, and from there to the verdict.
pub record Beat : Type 0 where
  pub cancelled : Bool
  pub between : Replica → Replica
  pub others : Replica → Replica

-- The messages and upper indices with which `LeaderSendAEs` is called.
unfoldable pub heart_beats : List Beat → Replica → List (AppendEntriesMessage × ℤ)
heart_beats [] w = []
heart_beats (b ∷ beats) w =
    let v = b.between w in
    let rest = heart_beats beats (b.others v) in
    if b.cancelled
    then []
    else if is_leader w.node.state
    then (base_message v.node, sub32 (log_len v.node.log) (pos 1)) ∷ rest
    else []

-- The replica is not changed before the message, and does not come to lead another term in one tick.
pub record IsSteady (b : Beat) : Type 0 where
  pub before : (w : Replica) → b.between w ≡ w
  pub after :
      (w : Replica)
      → is_leader (b.others w).node.state ≡ true
      → (b.others w).node.current_term ≡ w.node.current_term

-- When no other goroutine changes the replica between the test of its state and the message, and it
-- does not come to lead another term within one tick, each message of a heartbeat goroutine has the
-- term in which the goroutine started, and there is one only if the replica led then.
pub heart_beats-term :
    (beats : List Beat) (w : Replica)
    → ((i : ℕ) (b : Beat) → get_elem? beats i ≡ some b → IsSteady b)
    → (k : ℕ) (m : AppendEntriesMessage) (upper : ℤ)
    → get_elem? (heart_beats beats w) k ≡ some (m, upper)
    → (m.term ≡ w.node.current_term) × (is_leader w.node.state ≡ true)
unfolding heart_beats
heart_beats-term [] w steady k m upper e = ground arith
heart_beats-term (b ∷ beats) w steady k m upper e = elim (Bool-cases b.cancelled) [
  | inl done ↦ absurd (no_message (sym (rw done at e)))
  | inr on ↦ elim (Bool-cases (is_leader w.node.state)) [
    | inr idle ↦ absurd (no_message (sym (rw (on, idle) at e)))
    | inl leads ↦ (
      sent
          (λ k' h.
            heart_beats-term beats (b.others (b.between w)) (λ i. steady (suc i)) k' m upper h)
          k (rw (on, leads) at e),
      leads,
    )
  ]
]
  where
    no_message : {a : AppendEntriesMessage × ℤ} → some a ≡ none → ⊥
    no_message h = ground arith

    sent :
        ((k : ℕ)
          → get_elem? (heart_beats beats (b.others (b.between w))) k ≡ some (m, upper)
          → (m.term ≡ (b.others (b.between w)).node.current_term)
            × (is_leader (b.others (b.between w)).node.state ≡ true))
        → (k : ℕ)
        → get_elem?
            ((base_message (b.between w).node, sub32 (log_len (b.between w).node.log) (pos 1))
              ∷ heart_beats beats (b.others (b.between w)))
            k
          ≡ some (m, upper)
        → m.term ≡ w.node.current_term
    sent later zero h =
        ap (λ (p : AppendEntriesMessage × ℤ). p.0.term) (sym (some_injective h))
        ∙ ap (λ (x : Replica). x.node.current_term) ((steady 0 b refl).before w)
    sent later (suc k) h =
        let (same, leads) = later k h in
        same
        ∙ ((steady 0 b refl).after (b.between w) leads
            ∙ ap (λ (x : Replica). x.node.current_term) ((steady 0 b refl).before w))

-- ===== src/Tests/Beats.antt =====
-- Heartbeats of a leader, and of one that steps down before it fills the message.
use distributed_dns.Base.{
  ℕ, ◌≡◌, refl, arith, true, false, some, some_injective, List, [], ◌∷◌, get_elem?, suc, zero,
}
use distributed_dns.Base.Int.{ℤ, pos}
use distributed_dns.Raft.States.{is_leader, to_follower}
use distributed_dns.Raft.Replicate.{base_message}
use distributed_dns.Raft.Replicate.Heartbeats.{Beat, heart_beats, IsSteady, heart_beats-term}
use distributed_dns.Tests.Replicas.{leader_0}

abbrev calm : Beat
calm = record { cancelled = false; between = λ w. w; others = λ w. w }

calm-IsSteady : IsSteady calm
calm-IsSteady = record { before = λ w. refl; after = λ w leads. refl }

abbrev beats : List Beat
beats = calm ∷ calm ∷ []

beats-IsSteady : (i : ℕ) (b : Beat) → get_elem? beats i ≡ some b → IsSteady b
beats-IsSteady zero b e = rw (← some_injective e) calm-IsSteady
beats-IsSteady (suc zero) b e = rw (← some_injective e) calm-IsSteady
beats-IsSteady (suc (suc i)) b e = absurd (ground arith)

heart_beats-term_example :
    ((base_message leader_0.node).term ≡ pos 2) × (is_leader leader_0.node.state ≡ true)
unfolding heart_beats
heart_beats-term_example =
    heart_beats-term beats leader_0 beats-IsSteady 1 (base_message leader_0.node) _ refl

-- The message has the term of another leader.
abbrev stepping_down : Beat
stepping_down = record { cancelled = false; between = to_follower (pos 5); others = λ w. w }

false_heartbeat :
    (upper : ℤ) × (heart_beats (stepping_down ∷ []) leader_0
      ≡ (record (base_message leader_0.node) { term = pos 5 }, upper) ∷ [])
unfolding heart_beats to_follower
false_heartbeat = (_, refl)

-- ===== src/Raft/Cluster/Effects.antt =====
-- What the operations of one replica do to its ballot, and that its file follows.
use distributed_dns.Base.{
  ℕ, ◌≡◌, ◌⊎◌, inl, inr, refl, ap, ◌∙◌, arith, false, Bool-cases, none, some, StringMap, Run, ok,
  fault, ◌>>=◌, ◌&&◌, ◌||◌,
}
use distributed_dns.Base.Int.{ℤ, pos, minus_one, ◌<ℤ◌, ltb_ℤ, eqb_ℤ}
use distributed_dns.Raft.Protos.{AppendEntriesMessage}
use distributed_dns.Raft.Node.{candidate, RaftNode, Replica, Value, persist}
use distributed_dns.Raft.Persist.{store_node-Keeps}
use distributed_dns.Raft.Invariant.{Keeps}
use distributed_dns.Raft.States.{is_candidate, to_follower}
use distributed_dns.Raft.Append.{accept_leader}
use distributed_dns.Raft.Cluster.Ballot.{ballot, Moves, stay, rise, step_down}

-- The file has the term and the vote, or nothing was written since the start.
abbrev pub IsVoteSaved : Replica → Type 0
IsVoteSaved w =
    ((w.saved ≡ none) × (w.node.current_term ≡ pos 0) × (w.node.voted_for ≡ minus_one))
    ⊎ ((m : StringMap Value) × (n : RaftNode) × (w.saved ≡ some m)
        × Keeps m n
        × (n.current_term ≡ w.node.current_term)
        × (n.voted_for ≡ w.node.voted_for))

pub persist-IsVoteSaved : (w : Replica) → IsVoteSaved (persist w)
persist-IsVoteSaved w = inr (_, w.node, refl, store_node-Keeps w.node w.storage, refl, refl)

-- The replica has its number, in a cluster of this size.
pub record IsReplica (n i : ℕ) (w : Replica) : Type 0 where
  pub size : w.node.meta.n_replicas ≡ n
  pub number : w.node.meta.replica_id ≡ i
  pub saved : IsVoteSaved w

-- An operation that does not concern the ballot.
pub record Rests (w w' : Replica) : Type 0 where
  pub same : ballot w'.node ≡ ballot w.node
  pub keeps : (n i : ℕ) → IsReplica n i w → IsReplica n i w'

-- An operation of replica `i` alone.
pub record Proceeds (i : ℕ) (w w' : Replica) : Type 0 where
  pub moves : Moves i (ballot w.node) (ballot w'.node)
  pub keeps : (n i : ℕ) → IsReplica n i w → IsReplica n i w'

pub Rests-Proceeds : (i : ℕ) {w w' : Replica} → Rests w w' → Proceeds i w w'
Rests-Proceeds i {w} r = record { moves = rw r.same (stay); keeps = r.keeps }

pub Proceeds-Rests : (i : ℕ) {w v u : Replica} → Proceeds i w v → Rests v u → Proceeds i w u
Proceeds-Rests i p r = record {
  moves = rw r.same p.moves;
  keeps = λ n i h. r.keeps n i (p.keeps n i h);
}

pub Rests-trans : {w v u : Replica} → Rests w v → Rests v u → Rests w u
Rests-trans r r' = record { same = r'.same ∙ r.same; keeps = λ n i h. r'.keeps n i (r.keeps n i h) }

-- A run that returns went through its first part.
pub bind_ok {ℓ κ} :
    {A : Type ℓ} {B : Type κ} (r : Run A) (f : A → Run B) {b : B}
    → r >>= f ≡ ok b
    → (a : A) × (r ≡ ok a) × (f a ≡ ok b)
bind_ok (ok a) f h = (a, refl, h)
bind_ok (fault e) f h = ground arith

abbrev or_else_ok {ℓ} : {A : Type ℓ} → A → Run A → A
or_else_ok a (ok b) = b
or_else_ok a (fault e) = a

pub ok_injective {ℓ} : {A : Type ℓ} {a b : A} → ok a ≡ ok b → a ≡ b
ok_injective {a = a} h = ap (or_else_ok a) h

pub ok_first {ℓ κ} :
    {A : Type ℓ} {B : Type κ} {a : A} {b : B} {r : A × B} → ok (a, b) ≡ ok r → a ≡ r.0
ok_first {A} {B} h = ap (λ (x : A × B). x.0) (ok_injective h)

pub to_follower-Proceeds :
    (i : ℕ) (t : ℤ) (w : Replica)
    → (w.node.current_term <ℤ t) ⊎ ((t ≡ w.node.current_term) × (w.node.state ≡ candidate))
    → Proceeds i w (to_follower t w)
unfolding to_follower
to_follower-Proceeds i t w h = record {
  moves = elim h [ inl newer ↦ rise t newer | inr (same, stood) ↦ rw same (step_down stood) ];
  keeps = λ n i k. record {
    size = k.size;
    number = k.number;
    saved = inr (_, _, refl, store_node-Keeps _ _, refl, refl);
  };
}

-- Another field changed, and the file as it was.
pub Rests-of :
    (w w' : Replica)
    → ballot w'.node ≡ ballot w.node
    → w'.node.meta.n_replicas ≡ w.node.meta.n_replicas
    → w'.node.meta.replica_id ≡ w.node.meta.replica_id
    → (IsVoteSaved w → IsVoteSaved w')
    → Rests w w'
Rests-of w w' same size number saved = record {
  same = same;
  keeps =
      λ n i k. record { size = size ∙ k.size; number = number ∙ k.number; saved = saved k.saved };
}

pub accept_leader-Proceeds :
    (i : ℕ) (msg : AppendEntriesMessage) (w : Replica)
    → ltb_ℤ msg.term w.node.current_term ≡ false
    → Proceeds i w (accept_leader msg w)
unfolding accept_leader
accept_leader-Proceeds i msg w current =
    elim (Bool-cases (
      ltb_ℤ w.node.current_term msg.term
      || (eqb_ℤ w.node.current_term msg.term && is_candidate w.node.state))) [
        | inl steps ↦ rw steps (
            Proceeds-Rests i (to_follower-Proceeds i msg.term w (ground arith))
              (Rests-of (to_follower msg.term w) _ refl refl refl (λ s. s)))
        | inr stays ↦ rw stays (Rests-Proceeds i (Rests-of w _ refl refl refl (λ s. s)))
      ]

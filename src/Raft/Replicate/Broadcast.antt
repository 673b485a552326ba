-- ===== src/Raft/Replicate/Broadcast.antt =====
-- raft/send_AEs.go: the whole of `LeaderSendAEs`. The goroutines follow one after the other, each with a
-- message of its own.
use distributed_dns.Base.{
  ℕ, zero, suc, Bool, Option, none, some, List, [], ◌∷◌, ◌==◌, if◌then◌else◌, put_at, Run, ok,
  ◌>>=◌,
}
use distributed_dns.Base.Int.{ℤ, pos, sub32}
use distributed_dns.Raft.Protos.{AppendEntriesMessage, AppendEntriesResponse}
use distributed_dns.Raft.Node.{Replica}
use distributed_dns.Raft.Quorum.{Tally, new_tally, count_outcome}
use distributed_dns.Raft.Replicate.{fill_message, read_at, send_loop}
pub mod Goroutine
pub mod Targets
pub mod Outcomes
pub mod Majority

-- The replicas that the loop over the stubs starts a goroutine for, from replica `i` on.
unfoldable pub targets : ℕ → ℕ → List Bool → List ℕ
targets self i [] = []
targets self i (stub ∷ stubs) =
    let rest = targets self (suc i) stubs in
    if i == self then rest else if stub then i ∷ rest else rest

module _ {F : Type 0}
    (call : AppendEntriesMessage → F → Run (F × Option AppendEntriesResponse)) where
  -- The goroutine for replica `id`, on the message `base` of the caller. The number bounds the rounds.
  unfoldable pub goroutine :
      ℕ → ℤ → AppendEntriesMessage → ℕ → Replica → Tally → F → Run (Option (Replica × Tally × F))
  goroutine fuel upper base id w tally f = do
    next ← read_at w.node.next_index id
    msg ← fill_message w.node.log (sub32 next (pos 1)) upper base
    sent ← send_loop call fuel id upper msg w f
    elim sent [
      | none ↦ ok none
      | some (outcome, w', f') ↦
          ok (some (w', count_outcome w'.node.meta.n_replicas tally outcome, f'))
    ]

  unfoldable pub send_each :
      ℕ
      → ℤ
      → AppendEntriesMessage
      → List ℕ
      → Replica
      → Tally
      → (ℕ → F)
      → Run (Option (Replica × Tally × (ℕ → F)))
  send_each fuel upper base [] w tally peers = ok (some (w, tally, peers))
  send_each fuel upper base (id ∷ ids) w tally peers = do
    done ← goroutine fuel upper base id w tally (peers id)
    elim done [
      | none ↦ ok none
      | some (w', tally', f') ↦ send_each fuel upper base ids w' tally' (put_at peers id f')
    ]

  unfoldable pub leader_send_aes :
      ℕ → ℤ → AppendEntriesMessage → Replica → (ℕ → F) → Run (Option (Replica × Tally × (ℕ → F)))
  unfolding targets send_each
  leader_send_aes fuel upper base w =
      send_each fuel upper base (targets w.node.meta.replica_id 0 w.node.meta.peer_replica_clients)
        w new_tally

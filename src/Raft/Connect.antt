-- ===== src/Raft/Connect.antt =====
-- raft/raft_node.go: `ConnectToPeerReplicas`; `CheckErrorFatal` of raft/utils.go ends the process.
-- Whether `grpc.Dial` returns without an error for an address is a parameter.
use distributed_dns.Base.{
  ℕ, zero, suc, Bool, true, false, Option, none, some, List, [], ◌∷◌, get_elem?, set, replicate,
  ◌==◌, if◌then◌else◌, GoString, Run, ok, fault, panic, exit, ◌>>=◌,
}
use distributed_dns.Base.Int.{ltb_ℤ, sub32}
use distributed_dns.Raft.Node.{
  RaftNodeState, follower, NodeMetadata, Replica, commits_ready, run_timer, emit,
}
pub mod Resume

abbrev pub is_follower : RaftNodeState → Bool
is_follower follower = true
is_follower _ = false

-- `CheckErrorFatal(err)`, with whether there is no error.
abbrev pub check_error_fatal {ℓ} : {T : Type ℓ} → Bool → T → Run T
check_error_fatal fine result = if fine then ok result else fault exit

-- The part under the lock.
unfoldable pub proceed : Replica → Replica
proceed w =
    let behind = ltb_ℤ w.node.last_applied w.node.commit_index in
    let told =
      if behind
      then emit (commits_ready (sub32 w.node.commit_index w.node.last_applied)) w
      else w in
    if is_follower w.node.state then emit run_timer told else told

module _ (dials : GoString → Bool) where
  -- The loop over the replicas from `i` on, with as many left.
  unfoldable pub dial_loop : List GoString → ℕ → ℕ → ℕ → List Bool → Run (List Bool)
  dial_loop rep_addrs self zero i clients = ok clients
  dial_loop rep_addrs self (suc left) i clients = do
    next ← if i == self then ok clients else elim (get_elem? rep_addrs i) [
      | none ↦ fault panic
      | some addr ↦ check_error_fatal (dials addr) (set clients i true)
    ]
    dial_loop rep_addrs self left (suc i) next

  unfoldable pub connect_to_peer_replicas : List GoString → Replica → Run Replica
  unfolding dial_loop proceed
  connect_to_peer_replicas rep_addrs w = do
    let meta = w.node.meta
    clients ←
        dial_loop rep_addrs meta.replica_id meta.n_replicas 0 (replicate meta.n_replicas false)
    ok (
        proceed (record w {
          node = record w.node { meta = record meta { peer_replica_clients = clients } };
        }))

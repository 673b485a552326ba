-- ===== src/Raft/Harness/Restart.antt =====
-- raft/testing_utils.go: `crash_raft_node` and `restart_raft_node`, with the node that
-- `Setup_raft_node` (raft/initial_setup.go) gets from `InitializeNode`. The goroutines that these stop
-- and start are not here.
use distributed_dns.Base.{
  ℕ, ◌<◌, ◌≡◌, ◌≢◌, refl, ◌∙◌, arith, true, false, none, some, List, [], length, get_elem?,
  get_elem?-set, get_elem?-set_self, length-set, lt-of_get_elem?, set, ◌==◌, Gob, Run, ok, fault,
  panic, ◌>>=◌, Returns,
}
use distributed_dns.Raft.Node.{RaftNode, Replica, Value, persist, store_node}
use distributed_dns.Raft.Persist.{store_node-Keeps}
use distributed_dns.Raft.Storage.{new_node, initialize_node-Keeps}
use distributed_dns.Raft.Cluster.Elections.{reboot}
use distributed_dns.Raft.Harness.{Slot}

unfoldable pub crash_raft_node : ℕ → List Slot → Run (List Slot)
crash_raft_node id ss = elim (get_elem? ss id) [
  | none ↦ fault panic
  | some s ↦ ok (set ss id (record { replica = persist s.replica; active = false }))
]

module _ (gob : Gob Value) (n : ℕ) where
  open gob use {encode}

  unfoldable pub restart_raft_node : ℕ → List Slot → Run (List Slot)
  restart_raft_node id ss = elim (get_elem? ss id) [
    | none ↦ fault panic
    | some s ↦ do
      w ← reboot gob n id s.replica.saved
      ok (set ss id (record { replica = w; active = true }))
  ]

  -- A new node with the persisted fields of this one.
  abbrev pub restarted : ℕ → RaftNode → RaftNode
  restarted id m = record (new_node n id) {
    current_term = m.current_term;
    voted_for = m.voted_for;
    log = m.log;
    commit_index = m.commit_index;
    last_applied = m.last_applied;
  }

  reboot-persist :
      (id : ℕ) (w : Replica)
      → Returns (reboot gob n id (persist w).saved) λ w'. w'.node ≡ restarted id w.node
  unfolding reboot
  reboot-persist id w =
      let ((node, m), run, same) =
        initialize_node-Keeps gob n id (store_node w.node w.storage) w.node
          (store_node-Keeps w.node w.storage) in
      (
        record {
          node = node;
          storage = m;
          saved = some (store_node w.node w.storage);
          effects = [];
        },
        rw run refl,
        same,
      )

  crash-lem :
      (id : ℕ) (ss : List Slot) (s : Slot)
      → get_elem? ss id ≡ some s
      → crash_raft_node id ss
        ≡ ok (set ss id (record { replica = persist s.replica; active = false }))
  unfolding crash_raft_node
  crash-lem id ss s at = rw (at, crash_raft_node) refl

  restart-lem :
      (id : ℕ) (ss : List Slot) (s : Slot) (w : Replica)
      → get_elem? ss id ≡ some s
      → reboot gob n id s.replica.saved ≡ ok w
      → restart_raft_node id ss ≡ ok (set ss id (record { replica = w; active = true }))
  unfolding restart_raft_node
  restart-lem id ss s w at run = rw (at, restart_raft_node, run) refl

  -- A replica that is crashed and started again is active, and is a new node with the term, the
  -- vote, the log and the two indices that it had; the others stay as they are.
  pub crash-restart :
      (id : ℕ) (ss : List Slot) (s : Slot)
      → get_elem? ss id ≡ some s
      → Returns (crash_raft_node id ss >>= restart_raft_node id) λ ss'.
        ((w : Replica) × (get_elem? ss' id ≡ some (record { replica = w; active = true }))
          × (w.node ≡ restarted id s.replica.node))
        × ((k : ℕ) → k ≢ id → get_elem? ss' k ≡ get_elem? ss k)
  crash-restart id ss s at =
      let down : Slot = record { replica = persist s.replica; active = false } in
      let lt = lt-of_get_elem? ss id at in
      let lt' : id < length (set ss id down) = rw (length-set ss id down) lt in
      let (w, run, same) = reboot-persist id s.replica in
      let up : Slot = record { replica = w; active = true } in
      (
        set (set ss id down) id up,
        rw (crash-lem id ss s at)
            (restart-lem id (set ss id down) down w (get_elem?-set_self ss id down lt) run),
        (
          (w, get_elem?-set_self (set ss id down) id up lt', same),
          λ k ne.
              let other : (id == k) ≡ false = ground arith in
              get_elem?-set (set ss id down) id k up lt'
              ∙ (rw other (get_elem?-set ss id k down lt ∙ rw other refl)),
        ),
      )

-- ===== src/Raft/Harness/Begin.antt =====
-- raft/testing_utils.go: `start_test` and what `end_test` leaves of the files. The replicas, which the
-- code connects in goroutines, connect one after the other.
use distributed_dns.Base.{
  ℕ, zero, suc, true, Option, none, some, List, [], ◌∷◌, ltb, GoString, Gob, StringMap, Run, ok,
  ◌>>=◌, map, if◌then◌else◌,
}
use distributed_dns.Raft.Node.{Value}
use distributed_dns.Raft.Setup.{
  Site, Network, Rounds, grpc_address, setup_raft_node, connect_raft_node,
}
use distributed_dns.Raft.Harness.{Slot}

-- `rep_addrs`, for the replicas from `i` on, with as many left; each has its own address in it too.
unfoldable pub test_addresses : ℕ → ℕ → List GoString
test_addresses zero i = []
test_addresses (suc left) i = grpc_address i ∷ test_addresses left (suc i)

abbrev pub put_first : {A : Type 0} → A → Option (List A) → Option (List A)
put_first a none = none
put_first a (some others) = some (a ∷ others)

abbrev pub active_slot : Site → Slot
active_slot site = record { replica = site.replica; active = true }

module _ (gob : Gob Value) (net : Network) (rounds : ℕ → Rounds) (n : ℕ) where
  -- The first loop, from replica `i` on.
  unfoldable pub setup_all : (ℕ → Option (StringMap Value)) → ℕ → ℕ → Run (Option (List Site))
  setup_all files zero i = ok (some [])
  setup_all files (suc left) i = do
    set_up ← setup_raft_node gob (rounds i) i n (files i)
    elim set_up [
      | none ↦ ok none
      | some site ↦ do sites ← setup_all files left (suc i); ok (put_first site sites)
    ]

  -- The second loop.
  unfoldable pub connect_all : ℕ → List Site → Run (Option (List Site))
  unfolding test_addresses
  connect_all i [] = ok (some [])
  connect_all i (site ∷ sites) = do
    connected ← connect_raft_node net (rounds i) i (test_addresses n 0) site
    elim connected [
      | none ↦ ok none
      | some site' ↦ do sites' ← connect_all (suc i) sites; ok (put_first site' sites')
    ]

  unfoldable pub start_test : (ℕ → Option (StringMap Value)) → Run (Option (List Slot))
  unfolding setup_all connect_all
  start_test files = do
    set_up ← setup_all files n 0
    elim set_up [
      | none ↦ ok none
      | some sites ↦ do
        connected ← connect_all 0 sites
        ok (elim connected [ none ↦ none | some sites' ↦ some (map active_slot sites') ])
    ]

-- The files of the first `n` replicas are removed.
unfoldable pub end_test : {A : Type 0} → ℕ → (ℕ → Option A) → ℕ → Option A
end_test n files i = if ltb i n then none else files i

-- ===== src/Raft/Setup/Stop.antt =====
-- The end of a replica on a signal.
use distributed_dns.Base.{
  ℕ, zero, suc, ◌≤◌, ◌≡◌, ◌↔◌, refl, ap, arith, true, Option, none, some, List, [], ◌∷◌, length,
  take, GoString,
}
use distributed_dns.Raft.Setup.{shutdown_loop, listen_for_shutdown}

-- The texts before the first time limit.
abbrev pub in_time : List (Option GoString) → List GoString
in_time [] = []
in_time (none ∷ events) = []
in_time (some str ∷ events) = str ∷ in_time events

shutdown_loop_lem :
    (left : ℕ) (events : List (Option GoString))
    → ((shutdown_loop left events).0 ≡ take left (in_time events))
      × (((shutdown_loop left events).1 ≡ true) ↔ (left ≤ length (in_time events)))
unfolding shutdown_loop
shutdown_loop_lem zero events = (refl, (λ _. omega arith, λ _. refl))
shutdown_loop_lem (suc left) [] = (refl, ground arith)
shutdown_loop_lem (suc left) (none ∷ events) = (refl, ground arith)
shutdown_loop_lem (suc left) (some str ∷ events) =
    let (strs, ends) = shutdown_loop_lem left events in
    (ap (λ xs. str ∷ xs) strs, ground (arith, ends))

-- `ListenForShutdown` returns after four texts, or at the first time limit.
pub listen_for_shutdown-take :
    (events : List (Option GoString))
    → ((listen_for_shutdown events).0 ≡ take 4 (in_time events))
      × (((listen_for_shutdown events).1 ≡ true) ↔ (4 ≤ length (in_time events)))
unfolding listen_for_shutdown
listen_for_shutdown-take events = shutdown_loop_lem 4 events

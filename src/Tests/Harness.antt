-- ===== src/Tests/Harness.antt =====
-- A system as a test sees it, stubs that are cut and mended, and a replica that starts again.
use distributed_dns.Base.{
  ℕ, zero, suc, ◌≡◌, ◌≢◌, ◌≤◌, refl, sym, ap, arith, Bool, true, false, some, some_injective, List,
  [], ◌∷◌, get_elem?, fault, panic, ◌>>=◌, Returns,
}
use distributed_dns.Base.Int.{pos, neg_part, add32, sub32, int32, wrap32, ◌+ℤ◌, ◌-ℤ◌}
use distributed_dns.Raft.Node.{Replica, Value}
use distributed_dns.Raft.Timer.{time_out, quiet, run_election_timer}
use distributed_dns.Raft.Timer.Laws.{Ends, run_election_timer-Ends}
use distributed_dns.Raft.Harness.{Slot, count_leader, check_terms, terms_loop, check_consensus}
use distributed_dns.Raft.Harness.Leaders.{NoneUnset}
use distributed_dns.Raft.Harness.Consensus.{AllHold, IsMost, check_consensus-IsMost}
use distributed_dns.Raft.Harness.Inactive.{check_consensus-inactive}
use distributed_dns.Raft.Harness.Restart.{
  crash_raft_node, restart_raft_node, restarted, crash-restart,
}
use distributed_dns.Raft.Harness.System.{Shows, check_terms-reached}
use distributed_dns.Tests.Images.{plain}
use distributed_dns.Tests.Replicas.{leader_0, follower_1}
use distributed_dns.Tests.Cluster.{elected, http}

abbrev slot : Bool → Replica → Slot
slot active w = record { replica = w; active = active }

abbrev seen : List Slot
seen =
    slot true (elected.0.nodes 0)
    ∷ slot true (elected.0.nodes 1)
    ∷ slot false (elected.0.nodes 2)
    ∷ []

seen-Shows : Shows 3 elected.0 seen
seen-Shows zero a e = (omega arith, ap (λ (x : Slot). x.replica) (sym (some_injective e)))
seen-Shows (suc zero) a e = (omega arith, ap (λ (x : Slot). x.replica) (sym (some_injective e)))
seen-Shows (suc (suc zero)) a e =
    (omega arith, ap (λ (x : Slot). x.replica) (sym (some_injective e)))
seen-Shows (suc (suc (suc i))) a e = absurd (ground arith)

seen_agree : check_terms seen ≡ true
unfolding check_terms terms_loop distributed_dns.Raft.States.to_candidate
    distributed_dns.Raft.States.to_follower distributed_dns.Raft.States.start_election
    distributed_dns.Raft.States.ask_votes add32 sub32 int32 wrap32 ◌+ℤ◌ ◌-ℤ◌
    distributed_dns.Raft.Election.vote_message distributed_dns.Raft.Vote.latest
    distributed_dns.Raft.Vote.request_vote distributed_dns.Raft.Vote.answer
    distributed_dns.Raft.Vote.catch_up distributed_dns.Raft.Vote.grants
    distributed_dns.Raft.Vote.up_to_date distributed_dns.Raft.Election.vote_reply
    distributed_dns.Raft.Election.to_leader
seen_agree = refl

check_terms-reached_example : count_leader seen ≤ 1
check_terms-reached_example =
    check_terms-reached (plain Value) http 3 elected.1 seen seen-Shows seen_agree

abbrev pair : List Slot
pair = slot true leader_0 ∷ slot true follower_1 ∷ []

pair-NoneUnset : NoneUnset pair
pair-NoneUnset zero s e on = rw (← some_injective e) (λ unset. omega (arith, ap neg_part unset))
pair-NoneUnset (suc zero) s e on =
    rw (← some_injective e) (λ unset. omega (arith, ap neg_part unset))
pair-NoneUnset (suc (suc i)) s e on = absurd (ground arith)

pair-AllHold : AllHold (pos 0) pair
pair-AllHold zero s e = rw (← some_injective e) (refl, (_, refl))
pair-AllHold (suc zero) s e = rw (← some_injective e) (refl, (_, refl))
pair-AllHold (suc (suc i)) s e = absurd (ground arith)

check_consensus-IsMost_example : Returns (check_consensus (pos 0) pair) (IsMost (pos 0) pair)
check_consensus-IsMost_example = check_consensus-IsMost (pos 0) pair pair-AllHold

abbrev one_down : List Slot
one_down = slot true leader_0 ∷ slot false follower_1 ∷ []

check_consensus-inactive_example : check_consensus (pos 0) one_down ≡ fault panic
check_consensus-inactive_example =
    check_consensus-inactive (pos 0) one_down 1 (slot false follower_1) (omega arith) refl refl

crash-restart_example :
    Returns (crash_raft_node 0 pair >>= restart_raft_node (plain Value) 3 0) λ ss'.
      ((w : Replica) × (get_elem? ss' 0 ≡ some (record { replica = w; active = true }))
        × (w.node ≡ restarted (plain Value) 3 0 leader_0.node))
      × ((k : ℕ) → k ≢ 0 → get_elem? ss' k ≡ get_elem? pair k)
crash-restart_example = crash-restart (plain Value) 3 0 pair (slot true leader_0) refl

run_election_timer-Ends_example :
    Ends (time_out quiet) follower_1 (run_election_timer (time_out quiet) follower_1)
run_election_timer-Ends_example = run_election_timer-Ends (time_out quiet) follower_1

-- ===== src/Tests/Cluster.antt =====
-- A cluster of three that elects a leader, and one of five in which late goroutines make two.
use distributed_dns.Base.{ℕ, ◌≡◌, refl, arith, true, Bool, List, [], ◌∷◌}
use distributed_dns.Base.Int.{pos, add32, sub32, int32, wrap32, ◌+ℤ◌, ◌-ℤ◌}
use distributed_dns.Raft.Node.{leader, Value}
use distributed_dns.Raft.Apply.{StoreRequest}
use distributed_dns.Raft.Cluster.Local.{connect}
use distributed_dns.Raft.Cluster.System.{
  Cluster, Timing, prompt, late, timeout, ask, vote, reply, work, Reach, start, later,
}
use distributed_dns.Raft.Cluster.Safety.{election_safety}
use distributed_dns.Tests.Images.{plain}

abbrev pub http : StoreRequest → ℕ → ℕ × Bool
http r s = (s, true)

abbrev all_stubs : List Bool
all_stubs = true ∷ true ∷ true ∷ true ∷ true ∷ []

-- A state that can be reached.
abbrev pub At : Timing → ℕ → Type 0
At timing n = (s : Cluster) × Reach (plain Value) http timing n s

abbrev pub elected : At prompt 3
unfolding distributed_dns.Raft.States.to_candidate distributed_dns.Raft.States.to_follower
    distributed_dns.Raft.States.start_election distributed_dns.Raft.States.ask_votes add32 sub32
    int32 wrap32 ◌+ℤ◌ ◌-ℤ◌ distributed_dns.Raft.Election.vote_message
    distributed_dns.Raft.Vote.latest distributed_dns.Raft.Vote.request_vote
    distributed_dns.Raft.Vote.answer distributed_dns.Raft.Vote.catch_up
    distributed_dns.Raft.Vote.grants distributed_dns.Raft.Vote.up_to_date
    distributed_dns.Raft.Election.vote_reply distributed_dns.Raft.Election.to_leader
elected =
    let r1 : At prompt 3 = (_, later start (work 0 (connect all_stubs))) in
    let r2 : At prompt 3 = (_, later r1.1 (timeout 0 (omega arith) (omega arith))) in
    let r3 : At prompt 3 = (_, later r2.1 (ask 0 (pos 1) 1 (omega arith) refl (refl, refl) refl)) in
    let r4 : At prompt 3 = (_, later r3.1 (vote 0 (pos 1) 1 (omega arith) refl refl)) in
    (_, later r4.1 (reply 0 (pos 1) 1 (omega arith) refl))

-- Replica 0 counts the vote that replica 1 gave it in term 1 and the one that a late goroutine of that
-- election gets from replica 2 in term 2, and leads in term 2 by two votes of five; replica 3 leads
-- in term 2 too.
abbrev half_way : At late 5
unfolding distributed_dns.Raft.States.to_candidate distributed_dns.Raft.States.to_follower
    distributed_dns.Raft.States.start_election distributed_dns.Raft.States.ask_votes add32 sub32
    int32 wrap32 ◌+ℤ◌ ◌-ℤ◌ distributed_dns.Raft.Election.vote_message
    distributed_dns.Raft.Vote.latest distributed_dns.Raft.Vote.request_vote
    distributed_dns.Raft.Vote.answer distributed_dns.Raft.Vote.catch_up
    distributed_dns.Raft.Vote.grants distributed_dns.Raft.Vote.up_to_date
    distributed_dns.Raft.Election.vote_reply distributed_dns.Raft.Election.to_leader
half_way =
    let r1 : At late 5 = (_, later start (work 0 (connect all_stubs))) in
    let r2 : At late 5 = (_, later r1.1 (work 3 (connect all_stubs))) in
    let r3 : At late 5 = (_, later r2.1 (timeout 0 (omega arith) (omega arith))) in
    let r4 : At late 5 = (_, later r3.1 (ask 0 (pos 1) 1 (omega arith) refl tt refl)) in
    let r5 : At late 5 = (_, later r4.1 (vote 0 (pos 1) 1 (omega arith) refl refl)) in
    let r6 : At late 5 = (_, later r5.1 (reply 0 (pos 1) 1 (omega arith) refl)) in
    let r7 : At late 5 = (_, later r6.1 (timeout 0 (omega arith) (omega arith))) in
    let r8 : At late 5 = (_, later r7.1 (ask 0 (pos 1) 2 (omega arith) refl tt refl)) in
    let r9 : At late 5 = (_, later r8.1 (vote 0 (pos 1) 2 (omega arith) refl refl)) in
    (_, later r9.1 (reply 0 (pos 1) 2 (omega arith) refl))

abbrev two_leaders : At late 5
unfolding distributed_dns.Raft.States.to_candidate distributed_dns.Raft.States.to_follower
    distributed_dns.Raft.States.start_election distributed_dns.Raft.States.ask_votes add32 sub32
    int32 wrap32 ◌+ℤ◌ ◌-ℤ◌ distributed_dns.Raft.Election.vote_message
    distributed_dns.Raft.Vote.latest distributed_dns.Raft.Vote.request_vote
    distributed_dns.Raft.Vote.answer distributed_dns.Raft.Vote.catch_up
    distributed_dns.Raft.Vote.grants distributed_dns.Raft.Vote.up_to_date
    distributed_dns.Raft.Election.vote_reply distributed_dns.Raft.Election.to_leader
two_leaders =
    let r1 : At late 5 = (_, later half_way.1 (timeout 3 (omega arith) (omega arith))) in
    let r2 : At late 5 = (_, later r1.1 (timeout 3 (omega arith) (omega arith))) in
    let r3 : At late 5 = (_, later r2.1 (ask 3 (pos 2) 1 (omega arith) refl tt refl)) in
    let r4 : At late 5 = (_, later r3.1 (vote 3 (pos 2) 1 (omega arith) refl refl)) in
    let r5 : At late 5 = (_, later r4.1 (reply 3 (pos 2) 1 (omega arith) refl)) in
    let r6 : At late 5 = (_, later r5.1 (ask 3 (pos 2) 4 (omega arith) refl tt refl)) in
    let r7 : At late 5 = (_, later r6.1 (vote 3 (pos 2) 4 (omega arith) refl refl)) in
    (_, later r7.1 (reply 3 (pos 2) 4 (omega arith) refl))

two_leaders_of_one_term :
    ((two_leaders.0.nodes 0).node.state ≡ leader)
    × ((two_leaders.0.nodes 3).node.state ≡ leader)
    × ((two_leaders.0.nodes 0).node.current_term ≡ (two_leaders.0.nodes 3).node.current_term)
unfolding distributed_dns.Raft.States.to_candidate distributed_dns.Raft.States.to_follower
    distributed_dns.Raft.States.start_election distributed_dns.Raft.States.ask_votes add32 sub32
    int32 wrap32 ◌+ℤ◌ ◌-ℤ◌ distributed_dns.Raft.Election.vote_message
    distributed_dns.Raft.Vote.latest distributed_dns.Raft.Vote.request_vote
    distributed_dns.Raft.Vote.answer distributed_dns.Raft.Vote.catch_up
    distributed_dns.Raft.Vote.grants distributed_dns.Raft.Vote.up_to_date
    distributed_dns.Raft.Election.vote_reply distributed_dns.Raft.Election.to_leader
two_leaders_of_one_term = (refl, refl, refl)

election_safety_example : ◌≡◌ {A = ℕ} 0 0
unfolding distributed_dns.Raft.States.to_candidate distributed_dns.Raft.States.to_follower
    distributed_dns.Raft.States.start_election distributed_dns.Raft.States.ask_votes add32 sub32
    int32 wrap32 ◌+ℤ◌ ◌-ℤ◌ distributed_dns.Raft.Election.vote_message
    distributed_dns.Raft.Vote.latest distributed_dns.Raft.Vote.request_vote
    distributed_dns.Raft.Vote.answer distributed_dns.Raft.Vote.catch_up
    distributed_dns.Raft.Vote.grants distributed_dns.Raft.Vote.up_to_date
    distributed_dns.Raft.Election.vote_reply distributed_dns.Raft.Election.to_leader
election_safety_example =
    election_safety (plain Value) http 3 elected.1 0 0 (omega arith) (omega arith) refl refl refl

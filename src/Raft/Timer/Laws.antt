-- ===== src/Raft/Timer/Laws.antt =====
-- The timers of a replica.
use distributed_dns.Base.{
  ℕ, suc, ◌+◌, ◌≡◌, refl, ap, ◌∙◌, arith, Bool, true, false, List, [], ◌∷◌, ◌==◌, if◌then◌else◌,
}
use distributed_dns.Base.Int.{pos, add32}
use distributed_dns.Raft.Node.{
  candidate, RaftNode, Replica, Effect, reset_timer, spawn_reset, stop_timer, run_timer,
  commits_ready, ask_vote, persist, emit,
}
use distributed_dns.Raft.States.{ask_votes, start_election, to_candidate}
use distributed_dns.Raft.Timer.{
  cancelled, stop_ready, reset_ready, quiet, Wakes, time_out, stop, reset, run_election_timer,
}

-- How many timers were started.
abbrev pub timers : List Effect → ℕ
timers [] = 0
timers (run_timer ∷ es) = suc (timers es)
timers (reset_timer ∷ es) = timers es
timers (spawn_reset ∷ es) = timers es
timers (stop_timer ∷ es) = timers es
timers (commits_ready k ∷ es) = timers es
timers (ask_vote j ∷ es) = timers es

-- The timer is to run again.
abbrev pub goes_on : Wakes → Bool
goes_on (time_out reset_ready) = true
goes_on (time_out quiet) = true
goes_on reset = true
goes_on _ = false

abbrev pub expires : Wakes → Bool
expires (time_out quiet) = true
expires _ = false

ask_votes-timers :
    (self i : ℕ) (stubs : List Bool) (w : Replica)
    → (timers (ask_votes self i stubs w).effects ≡ timers w.effects)
      × ((ask_votes self i stubs w).node ≡ w.node)
unfolding ask_votes
ask_votes-timers self i [] w = (refl, refl)
ask_votes-timers self i (stub ∷ stubs) w =
    let next : Replica = if i == self then w else if stub then emit (ask_vote i) w else w in
    let rest = ask_votes-timers self (suc i) stubs next in
    let first = asked-timers (i == self) stub i w in (rest.0 ∙ first.0, rest.1 ∙ first.1)
  where
    asked-timers :
        (own stub : Bool) (i : ℕ) (w : Replica)
        → (timers (if own then w else if stub then emit (ask_vote i) w else w).effects
            ≡ timers w.effects)
          × ((if own then w else if stub then emit (ask_vote i) w else w).node ≡ w.node)
    asked-timers true stub i w = (refl, refl)
    asked-timers false true i w = (refl, refl)
    asked-timers false false i w = (refl, refl)

abbrev pub is_cancelled : Wakes → Bool
is_cancelled (time_out cancelled) = true
is_cancelled _ = false

-- The ways in which a timer ends.
pub record Ends (wakes : Wakes) (w : Replica) (r : Replica × Bool) : Type 0 where
  pub started : timers r.0.effects ≡ timers w.effects + (if goes_on wakes then 1 else 0)
  pub term :
      r.0.node.current_term
      ≡ (if expires wakes then add32 w.node.current_term (pos 1) else w.node.current_term)
  pub state : r.0.node.state ≡ (if expires wakes then candidate else w.node.state)
  pub log : r.0.node.log ≡ w.node.log
  pub locked : r.1 ≡ is_cancelled wakes

to_candidate-Ends : (w : Replica) → Ends (time_out quiet) w (to_candidate w, false)
unfolding to_candidate start_election
to_candidate-Ends w =
    let stood : Replica = persist (record w {
      node = record w.node {
        state = candidate;
        current_term = add32 w.node.current_term (pos 1);
        voted_for = pos w.node.meta.replica_id;
      };
    }) in
    let (same, node) =
      ask_votes-timers w.node.meta.replica_id 0 w.node.meta.peer_replica_clients stood in
    record {
      started = omega (arith, same);
      term = ap (λ (n : RaftNode). n.current_term) node;
      state = ap (λ (n : RaftNode). n.state) node;
      log = ap (λ (n : RaftNode). n.log) node;
      locked = refl;
    }

-- `RunElectionTimer` starts one more timer when it was reset or runs out, and none when it was
-- stopped or cancelled; the replica becomes a candidate of the next term when it runs out with no
-- signal, and keeps its term and state in all other cases; it keeps its log, and ends with the lock
-- held exactly if the context was cancelled when the time ran out.
pub run_election_timer-Ends :
    (wakes : Wakes) (w : Replica) → Ends wakes w (run_election_timer wakes w)
unfolding run_election_timer
run_election_timer-Ends (time_out cancelled) w = record {
  started = omega arith;
  term = refl;
  state = refl;
  log = refl;
  locked = refl;
}
run_election_timer-Ends (time_out stop_ready) w = record {
  started = omega arith;
  term = refl;
  state = refl;
  log = refl;
  locked = refl;
}
run_election_timer-Ends (time_out reset_ready) w = record {
  started = omega arith;
  term = refl;
  state = refl;
  log = refl;
  locked = refl;
}
run_election_timer-Ends (time_out quiet) w = to_candidate-Ends w
run_election_timer-Ends stop w = record {
  started = omega arith;
  term = refl;
  state = refl;
  log = refl;
  locked = refl;
}
run_election_timer-Ends reset w = record {
  started = omega arith;
  term = refl;
  state = refl;
  log = refl;
  locked = refl;
}

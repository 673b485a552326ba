-- ===== src/Raft/Timer.antt =====
-- raft/election.go: `RunElectionTimer`. Which case of a `select` is taken is an argument.
use distributed_dns.Base.{ℕ, suc, Bool, true, false}
use distributed_dns.Raft.Node.{Replica, run_timer, emit}
use distributed_dns.Raft.States.{to_candidate}
pub mod Laws

-- What the goroutine finds under the lock, after the time ran out: the context is cancelled, a signal
-- has come meanwhile, or nothing.
pub data Meanwhile : Type 0 where
  cancelled stop_ready reset_ready quiet : Meanwhile

-- What ends the wait: the time ran out, or a signal.
pub data Wakes : Type 0 where
  time_out : Meanwhile → Wakes
  stop reset : Wakes

-- The replica after the goroutine, and whether it still has the lock.
unfoldable pub run_election_timer : Wakes → Replica → Replica × Bool
run_election_timer (time_out cancelled) w = (w, true)
run_election_timer (time_out stop_ready) w = (w, false)
run_election_timer (time_out reset_ready) w = (emit run_timer w, false)
run_election_timer (time_out quiet) w = (to_candidate w, false)
run_election_timer stop w = (w, false)
run_election_timer reset w = (emit run_timer w, false)

-- ===== src/Raft/Blocking.antt =====
-- The mutex of a follower and the channels that are sent on: `AppendEntries` (raft/rpcs.go), which sends
-- while it holds the lock, `RunElectionTimer` (raft/election.go) and `ApplyToStateMachine`
-- (raft/raft_node.go), which receive and lock. A send and its receipt are one step, since the channels
-- have no buffer. Handlers that lock and release without a send change nothing here.
use distributed_dns.Base.{ℕ, suc, ◌≡◌, Bool, true, false, not, ◌&&◌, if◌then◌else◌}
pub mod Jams

-- `RunElectionTimer`: it waits for the time or a signal, the time ran out and it waits for the lock,
-- or it has the lock.
pub data TimerAt : Type 0 where
  sleeping woken checking : TimerAt

-- `ApplyToStateMachine`: it waits for a signal, has got one and waits for the lock, or has the lock.
pub data ApplierAt : Type 0 where
  receiving signalled applying : ApplierAt

-- `AppendEntries`: no call has the lock, or one has it and is to send on `electionResetEvent`, to handle
-- the entries, to send on `commits_ready`, or to release the lock.
pub data HandlerAt : Type 0 where
  outside resetting merging signalling leaving : HandlerAt

-- `resets` goroutines of `ToFollower` wait to send on `electionResetEvent`, and `commits` goroutines
-- without the lock to send on `commits_ready`.
pub record Threads : Type 0 where
  pub timer : TimerAt
  pub applier : ApplierAt
  pub handler : HandlerAt
  pub resets : ℕ
  pub commits : ℕ

abbrev pub checks : TimerAt → Bool
checks checking = true
checks _ = false

abbrev pub applies : ApplierAt → Bool
applies applying = true
applies _ = false

abbrev pub inside : HandlerAt → Bool
inside outside = false
inside _ = true

-- No one has the lock.
abbrev pub is_free : Threads → Bool
is_free s = not (checks s.timer) && (not (applies s.applier) && not (inside s.handler))

pub data Step (s : Threads) : Threads → Type 0 where
  time_out : s.timer ≡ sleeping → Step s (record s { timer = woken })
  timer_locks : s.timer ≡ woken → is_free s ≡ true → Step s (record s { timer = checking })
  -- A goroutine is ready to send, and a new timer starts.
  timer_resets :
      (r : ℕ)
      → s.timer ≡ checking
      → s.resets ≡ suc r
      → Step s (record s { timer = sleeping; resets = r })
  -- `ToCandidate`, which starts a new timer.
  timer_expires : s.timer ≡ checking → s.resets ≡ 0 → Step s (record s { timer = sleeping })
  reset_received :
      (r : ℕ) → s.timer ≡ sleeping → s.resets ≡ suc r → Step s (record s { resets = r })
  -- `AppendEntries` of no older term, with or without `ToFollower`.
  enter :
      (steps_down : Bool)
      → is_free s ≡ true
      → Step s
          (record s { handler = resetting; resets = if steps_down then suc s.resets else s.resets })
  reset_sent : s.handler ≡ resetting → s.timer ≡ sleeping → Step s (record s { handler = merging })
  -- The entries are handled; the commit index moves or not.
  merged :
      (commits : Bool)
      → s.handler ≡ merging
      → Step s (record s { handler = if commits then signalling else leaving })
  commits_sent :
      s.handler ≡ signalling
      → s.applier ≡ receiving
      → Step s (record s { handler = leaving; applier = signalled })
  leave : s.handler ≡ leaving → Step s (record s { handler = outside })
  -- Another handler or reply that calls `ToFollower`.
  step_down : is_free s ≡ true → Step s (record s { resets = suc s.resets })
  -- `WriteCommand` and `ToLeader`, which send after they released the lock.
  committed : is_free s ≡ true → Step s (record s { commits = suc s.commits })
  commit_received :
      (c : ℕ)
      → s.commits ≡ suc c
      → s.applier ≡ receiving
      → Step s (record s { applier = signalled; commits = c })
  applier_locks :
      s.applier ≡ signalled → is_free s ≡ true → Step s (record s { applier = applying })
  applied : s.applier ≡ applying → Step s (record s { applier = receiving })

pub data Steps (s : Threads) : Threads → Type 0 where
  here : Steps s s
  more : {t u : Threads} → Steps s t → Step t u → Steps s u

-- A follower with its timer and its applier.
abbrev pub at_rest : Threads
at_rest = record {
  timer = sleeping;
  applier = receiving;
  handler = outside;
  resets = 0;
  commits = 0;
}

-- ===== src/Raft/Blocking/Jams.antt =====
-- When a call of `AppendEntries` that has the lock waits for someone who waits for the lock.
use distributed_dns.Base.{
  ℕ, ◌+◌, ◌≤◌, ◌<◌, ◌≡◌, ◌⊎◌, inl, inr, refl, sym, ap, ◌∙◌, arith, Bool, true, false, if◌then◌else◌,
}
use distributed_dns.Raft.Blocking.{
  TimerAt, sleeping, woken, checking, ApplierAt, receiving, signalled, applying, HandlerAt, outside,
  resetting, merging, signalling, leaving, Threads, checks, applies, inside, Step, time_out,
  timer_locks, timer_resets, timer_expires, reset_received, enter, reset_sent, merged, commits_sent,
  leave, step_down, committed, commit_received, applier_locks, applied, Steps, here, more, at_rest,
}

abbrev one : Bool → ℕ
one b = if b then 1 else 0

-- At most one has the lock.
abbrev pub IsExclusive : Threads → Type 0
IsExclusive s = one (checks s.timer) + (one (applies s.applier) + one (inside s.handler)) ≤ 1

Step-IsExclusive : {s u : Threads} → Step s u → IsExclusive s → IsExclusive u
Step-IsExclusive (time_out e) x = ground arith
Step-IsExclusive (timer_locks e free) x = ground arith
Step-IsExclusive (timer_resets r e e') x = ground arith
Step-IsExclusive (timer_expires e e') x = ground arith
Step-IsExclusive (reset_received r e e') x = x
Step-IsExclusive {s} (enter b free) x = ground arith
Step-IsExclusive (reset_sent e e') x = ground arith
Step-IsExclusive (merged true e) x = ground arith
Step-IsExclusive (merged false e) x = ground arith
Step-IsExclusive (commits_sent e e') x = ground arith
Step-IsExclusive (leave e) x = ground arith
Step-IsExclusive (step_down free) x = x
Step-IsExclusive (committed free) x = x
Step-IsExclusive (commit_received c e e') x = ground arith
Step-IsExclusive (applier_locks e free) x = ground arith
Step-IsExclusive (applied e) x = ground arith

Steps-IsExclusive : {s u : Threads} → Steps s u → IsExclusive s → IsExclusive u
Steps-IsExclusive here x = x
Steps-IsExclusive (more steps step) x = Step-IsExclusive step (Steps-IsExclusive steps x)

reachable-IsExclusive : {s : Threads} → Steps at_rest s → IsExclusive s
reachable-IsExclusive steps = Steps-IsExclusive steps (ground arith)

-- A call with the lock is to send to someone who waits for the lock.
pub data Jammed (s : Threads) : Type 0 where
  at_timer : s.handler ≡ resetting → s.timer ≡ woken → Jammed s
  at_applier : s.handler ≡ signalling → s.applier ≡ signalled → Jammed s

-- How far a call is from releasing the lock.
abbrev pub rank : HandlerAt → ℕ
rank outside = 0
rank leaving = 1
rank signalling = 2
rank merging = 3
rank resetting = 4

-- Some step of the threads brings the call nearer to its end.
abbrev pub Advances : Threads → Type 0
Advances s = (u : Threads) × Step s u × (rank u.handler < rank s.handler)

reset_or_jam :
    (s : Threads) (t : TimerAt)
    → IsExclusive s
    → s.handler ≡ resetting
    → s.timer ≡ t
    → Jammed s ⊎ Advances s
reset_or_jam s sleeping x e at = inr (_, reset_sent e at, ground (arith, ap rank e))
reset_or_jam s woken x e at = inl (at_timer e at)
reset_or_jam s checking x e at = ground (arith, ap checks at, ap inside e)

commit_or_jam :
    (s : Threads) (t : ApplierAt)
    → IsExclusive s
    → s.handler ≡ signalling
    → s.applier ≡ t
    → Jammed s ⊎ Advances s
commit_or_jam s receiving x e at = inr (_, commits_sent e at, ground (arith, ap rank e))
commit_or_jam s signalled x e at = inl (at_applier e at)
commit_or_jam s applying x e at = ground (arith, ap applies at, ap inside e)

goes_on :
    (s : Threads) (t : HandlerAt)
    → IsExclusive s
    → s.handler ≡ t
    → inside t ≡ true
    → Jammed s ⊎ Advances s
goes_on s outside x e i = ground arith
goes_on s resetting x e i = reset_or_jam s s.timer x e refl
goes_on s merging x e i = inr (_, merged true e, ground (arith, ap rank e))
goes_on s signalling x e i = commit_or_jam s s.applier x e refl
goes_on s leaving x e i = inr (_, leave e, ground (arith, ap rank e))

-- In every state that a follower's threads reach, a call of `AppendEntries` that holds the mutex
-- can get nearer to its end by a step of the threads, or is jammed: it is to send to the timer,
-- which waits for the mutex, or to the applier, which waits for the mutex.
pub append_entries_advances :
    {s : Threads} → Steps at_rest s → inside s.handler ≡ true → Jammed s ⊎ Advances s
append_entries_advances {s} steps i = goes_on s s.handler (reachable-IsExclusive steps) refl i

Step-at_timer :
    {s u : Threads}
    → Step s u
    → s.handler ≡ resetting
    → s.timer ≡ woken
    → (u.handler ≡ resetting) × (u.timer ≡ woken)
Step-at_timer (time_out e) h t = cc
Step-at_timer (timer_locks e free) h t = ground (arith, ap inside h)
Step-at_timer (timer_resets r e e') h t = cc
Step-at_timer (timer_expires e e') h t = cc
Step-at_timer (reset_received r e e') h t = (h, t)
Step-at_timer (enter b free) h t = ground (arith, ap inside h)
Step-at_timer (reset_sent e e') h t = cc
Step-at_timer (merged b e) h t = cc
Step-at_timer (commits_sent e e') h t = cc
Step-at_timer (leave e) h t = cc
Step-at_timer (step_down free) h t = (h, t)
Step-at_timer (committed free) h t = (h, t)
Step-at_timer (commit_received c e e') h t = (h, t)
Step-at_timer (applier_locks e free) h t = (h, t)
Step-at_timer (applied e) h t = (h, t)

Step-at_applier :
    {s u : Threads}
    → Step s u
    → s.handler ≡ signalling
    → s.applier ≡ signalled
    → (u.handler ≡ signalling) × (u.applier ≡ signalled)
Step-at_applier (time_out e) h t = (h, t)
Step-at_applier (timer_locks e free) h t = (h, t)
Step-at_applier (timer_resets r e e') h t = (h, t)
Step-at_applier (timer_expires e e') h t = (h, t)
Step-at_applier (reset_received r e e') h t = (h, t)
Step-at_applier (enter b free) h t = ground (arith, ap inside h)
Step-at_applier (reset_sent e e') h t = cc
Step-at_applier (merged b e) h t = cc
Step-at_applier (commits_sent e e') h t = cc
Step-at_applier (leave e) h t = cc
Step-at_applier (step_down free) h t = (h, t)
Step-at_applier (committed free) h t = (h, t)
Step-at_applier (commit_received c e e') h t = cc
Step-at_applier (applier_locks e free) h t = ground (arith, ap inside h)
Step-at_applier (applied e) h t = cc

Step-Jammed : {s u : Threads} → Step s u → Jammed s → Jammed u × (u.handler ≡ s.handler)
Step-Jammed step (at_timer h t) =
    let (h', t') = Step-at_timer step h t in (at_timer h' t', h' ∙ sym h)
Step-Jammed step (at_applier h t) =
    let (h', t') = Step-at_applier step h t in (at_applier h' t', h' ∙ sym h)

-- A jam stays: after any steps of the threads the call of `AppendEntries` is where it was, with the
-- mutex, and still jammed.
pub Steps-Jammed : {s u : Threads} → Jammed s → Steps s u → Jammed u × (u.handler ≡ s.handler)
Steps-Jammed jam here = (jam, refl)
Steps-Jammed jam (more steps step) =
    let (jam', e) = Steps-Jammed jam steps in
    let (jam'', e') = Step-Jammed step jam' in (jam'', e' ∙ e)

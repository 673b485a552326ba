-- ===== src/Tests/Blocking.antt =====
-- Runs of the threads of a follower into each of the two jams.
use distributed_dns.Base.{◌≡◌, ◌⊎◌, refl, true, false}
use distributed_dns.Raft.Blocking.{
  woken, signalled, resetting, signalling, Threads, time_out, enter, commit_received, reset_sent,
  merged, commits_sent, leave, Steps, here, more, at_rest,
}
use distributed_dns.Raft.Blocking.Jams.{
  Jammed, at_timer, at_applier, append_entries_advances, Advances, Steps-Jammed,
}

-- The time runs out between the call's lock and its send.
abbrev at_the_timer : Threads
at_the_timer = record at_rest { handler = resetting; timer = woken }

run_to_the_timer : Steps at_rest at_the_timer
run_to_the_timer = more (more here (enter false refl)) (time_out refl)

-- Two calls send on `commits_ready` before the applier gets the lock.
abbrev at_the_applier : Threads
at_the_applier = record at_rest { handler = signalling; applier = signalled }

abbrev one_commit : Threads
one_commit = record at_rest { applier = signalled }

first_commit : Steps at_rest one_commit
first_commit =
    more
      (more (more (more (more here (enter false refl)) (reset_sent refl refl)) (merged true refl))
        (commits_sent refl refl))
      (leave refl)

run_to_the_applier : Steps at_rest at_the_applier
run_to_the_applier =
    more (more (more first_commit (enter false refl)) (reset_sent refl refl)) (merged true refl)

append_entries_advances_example : Jammed at_the_applier ⊎ Advances at_the_applier
append_entries_advances_example = append_entries_advances run_to_the_applier refl

timer_jam : Jammed at_the_timer
timer_jam = at_timer refl refl

applier_jam : Jammed at_the_applier
applier_jam = at_applier refl refl

-- Before the jam another goroutine came to wait to send on `commits_ready`.
abbrev with_commit : Threads
with_commit = record at_the_timer { commits = 1 }

abbrev still_at_the_timer : Threads
still_at_the_timer = record at_the_timer { applier = signalled }

commit_applied : Steps with_commit still_at_the_timer
commit_applied = more here (commit_received 0 refl refl)

Steps-Jammed_example :
    Jammed still_at_the_timer × (still_at_the_timer.handler ≡ with_commit.handler)
Steps-Jammed_example = Steps-Jammed (at_timer refl refl) commit_applied

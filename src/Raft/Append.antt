-- ===== src/Raft/Append.antt =====
-- raft/rpcs.go: the RPC `AppendEntries`.
pub mod Merge
pub mod Steps
pub mod Laws
pub mod Safety
pub mod Durable
pub mod StepDown
use distributed_dns.Base.{
  ℕ, zero, suc, ◌+◌, Bool, true, false, ◌&&◌, ◌||◌, List, [], ◌∷◌, ◌++◌, Option, none, some, Run,
  ok, fault, panic, ◌>>=◌, length, get_elem?, set, drop, GoString, StringMap, insert, ltb, ◌==◌,
  if◌then◌else◌,
}
use distributed_dns.Base.Int.{ℤ, pos, negsuc, minus_one, add32, sub32, ltb_ℤ, leb_ℤ, eqb_ℤ}
use distributed_dns.Raft.Protos.{LogEntry, AppendEntriesMessage, AppendEntriesResponse}
use distributed_dns.Raft.Node.{
  RaftNode, Replica, reset_timer, commits_ready, persist, emit, entry_at, log_len,
}
use distributed_dns.Raft.States.{is_candidate, to_follower}

-- `(in.PrevLogIndex == -1) || (in.PrevLogIndex < len(node.log) && node.log[in.PrevLogIndex].Term ==
-- in.PrevLogTerm)`
unfoldable pub prev_matches : List LogEntry → AppendEntriesMessage → Run Bool
prev_matches log msg =
    if eqb_ℤ msg.prev_log_index minus_one
    then ok true
    else if ltb_ℤ msg.prev_log_index (log_len log)
    then (do e ← entry_at log msg.prev_log_index; ok (eqb_ℤ e.term msg.prev_log_term))
    else ok false

-- The loop that looks for the first mismatch: from `logIndex` and `in.Entries[entryIndex:]` to their
-- last values.
unfoldable pub scan : List LogEntry → ℕ → List LogEntry → ℕ × List LogEntry
scan log i [] = (i, [])
scan log i (e ∷ es) = elim (get_elem? log i) [
  | none ↦ (i, e ∷ es)
  | some x ↦ if eqb_ℤ x.term e.term then scan log (suc i) es else (i, e ∷ es)
]

-- `append`, or the assignment `node.log[logIndex] = …`
unfoldable pub put_entry : List LogEntry → ℕ → LogEntry → Run (List LogEntry)
put_entry log i e =
    if i == length log
    then ok (log ++ e ∷ [])
    else if ltb i (length log)
    then ok (set log i e)
    else fault panic

-- The loop over the entries that are left.
unfoldable pub write_loop : List LogEntry → ℕ → List LogEntry → Run (List LogEntry)
unfolding put_entry
write_loop log i [] = ok log
write_loop log i (e ∷ es) = do log' ← put_entry log i e; write_loop log' (suc i) es

-- `int(in.PrevLogIndex + 1)`. It is not negative where the loops are reached.
abbrev pub loop_start : ℤ → Run ℕ
loop_start (pos i) = ok i
loop_start (negsuc i) = fault panic

-- Both loops.
unfoldable pub merge : List LogEntry → ℕ → List LogEntry → Run (List LogEntry)
unfolding scan write_loop
merge log i es = let (j, rest) = scan log i es in write_loop log j rest

-- The loop that updates `trackMessage`, from index `i` and `node.log[i:]`.
unfoldable pub track_loop :
    ℕ → ℤ → List LogEntry → StringMap (List GoString) → StringMap (List GoString)
track_loop i commit [] m = m
track_loop i commit (e ∷ es) m =
    if leb_ℤ (pos i) commit
    then track_loop (suc i) commit es (insert e.clientid e.operation m)
    else m

-- The new commit index.
unfoldable pub next_commit : ℤ → List LogEntry → ℤ
next_commit leader_commit log =
    if ltb_ℤ leader_commit (log_len log) then leader_commit else sub32 (log_len log) (pos 1)

-- The body of `if in.LeaderCommit > node.commitIndex { … }`, with the loop from index `i` on.
abbrev pub commit_from : AppendEntriesMessage → ℕ → Replica → Replica
commit_from msg i w =
    let n = w.node in
    let c = next_commit msg.leader_commit n.log in
    emit (commits_ready (sub32 c n.commit_index)) (record w {
      node = record n {
        meta = record n.meta { latest_client = msg.latest_client };
        track_message = track_loop i msg.leader_commit (drop i n.log) n.track_message;
        commit_index = c;
      };
    })

unfoldable pub commit_entries : AppendEntriesMessage → Replica → Run Replica
unfolding track_loop next_commit
commit_entries msg w =
    if ltb_ℤ w.node.commit_index msg.leader_commit
    then (do i ← loop_start (add32 w.node.commit_index (pos 1)); ok (commit_from msg i w))
    else ok w

abbrev pub is_nil : List LogEntry → Bool
is_nil [] = true
is_nil (e ∷ es) = false

-- The answer to a leader of an older term.
unfoldable pub answer_stale : AppendEntriesMessage → Replica → Run (Replica × AppendEntriesResponse)
unfolding prev_matches scan
answer_stale msg w = do
  matches ← prev_matches w.node.log msg
  i ← if matches then loop_start (add32 msg.prev_log_index (pos 1)) else ok 0
  ok (
    w,
    record {
      term = w.node.current_term;
      success = matches && is_nil (scan w.node.log i msg.entries).1;
    },
  )

-- A node of an older term, or a candidate of this one, becomes a follower; the election timer is
-- reset and the leader's address noted.
unfoldable pub accept_leader : AppendEntriesMessage → Replica → Replica
accept_leader msg w =
    let stepped =
      if ltb_ℤ w.node.current_term msg.term
        || (eqb_ℤ w.node.current_term msg.term && is_candidate w.node.state)
      then to_follower msg.term w
      else w in
    let reset = emit reset_timer stepped in
    record reset {
      node = record reset.node {
        meta = record reset.node.meta { leader_address = msg.leader_addr };
      };
    }

unfoldable pub append_matched :
    AppendEntriesMessage → Replica → Run (Replica × AppendEntriesResponse)
append_matched msg w = do
  i ← loop_start (add32 msg.prev_log_index (pos 1))
  log' ← merge w.node.log i msg.entries
  w' ← commit_entries msg (record w { node = record w.node { log = log' } })
  ok (persist w', record { term = msg.term; success = true })

unfoldable pub append_current :
    AppendEntriesMessage → Replica → Run (Replica × AppendEntriesResponse)
append_current msg w = do
  matches ← prev_matches w.node.log msg
  if matches then append_matched msg w else ok (w, record { term = msg.term; success = false })

unfoldable pub append_entries :
    AppendEntriesMessage → Replica → Run (Replica × AppendEntriesResponse)
append_entries msg w =
    if ltb_ℤ msg.term w.node.current_term
    then answer_stale msg w
    else append_current msg (accept_leader msg w)

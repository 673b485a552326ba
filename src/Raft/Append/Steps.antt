-- ===== src/Raft/Append/Steps.antt =====
-- The parts of `AppendEntries` before and after the loops over the entries.
use distributed_dns.Base.{
  ℕ, zero, suc, ◌+◌, ◌-◌, ◌≤◌, ◌<◌, ◌^◌, ◌≡◌, ◌↔◌, inl, inr, refl, ap, Bool, true, false, none,
  some, List, [], ◌∷◌, ◌&&◌, ◌||◌, arith, ok, Returns, length, get_elem?, get_elem?-of_lt,
  lt-of_get_elem?, if◌then◌else◌, Option-cases, Bool-cases,
}
use distributed_dns.Base.Int.{
  ℤ, pos, negsuc, minus_one, ◌≤ℤ◌, ◌<ℤ◌, ltb_ℤ, eqb_ℤ, eqb_ℤ_iff, int32-of_lt, add32, add32-pos,
  add32-minus_one, sub32, wrap32, ◌-ℤ◌,
}
use distributed_dns.Raft.Protos.{LogEntry, AppendEntriesMessage}
use distributed_dns.Raft.Node.{candidate, RaftNode, follower, Replica, entry_at-pos, Fits}
use distributed_dns.Raft.States.{is_candidate, to_follower}
use distributed_dns.Raft.Log.{last_index}
use distributed_dns.Raft.Persist.{store_node-Keeps, Keeps-meta}
use distributed_dns.Raft.Invariant.{IsWellFormed, IsDurable, start_of, Consistent}
use distributed_dns.Raft.Append.{
  prev_matches, loop_start, next_commit, commit_from, commit_entries, accept_leader,
}

-- The test of the previous entry does not panic, and decides whether the log has it.
pub prev_matches_lem :
    (log : List LogEntry) (msg : AppendEntriesMessage)
    → Fits log
    → minus_one ≤ℤ msg.prev_log_index
    → (b : Bool) × (prev_matches log msg ≡ ok b) × ((b ≡ true) ↔ Consistent log msg)
unfolding prev_matches
prev_matches_lem log msg fits h = go msg.prev_log_index refl
  where
    go :
        (p : ℤ)
        → msg.prev_log_index ≡ p
        → (b : Bool) × (prev_matches log msg ≡ ok b) × ((b ≡ true) ↔ Consistent log msg)
    go (negsuc n) e =
        let first : msg.prev_log_index ≡ minus_one = ground arith in
        (true, ground arith, (λ _. inl first, λ _. refl))
    go (pos p) e = elim (Option-cases (get_elem? log p)) [
      | inl end ↦ (
        false,
        ground (arith, int32-of_lt (length log), get_elem?-of_lt log p),
        (λ q. ground arith, λ c. absurd (apart end c)),
      )
      | inr (x, at) ↦ (
        eqb_ℤ x.term msg.prev_log_term,
        ground (arith, int32-of_lt (length log), lt-of_get_elem? log p at, entry_at-pos log p at),
        (
          λ q. inr (p, x, e, at, (eqb_ℤ_iff x.term msg.prev_log_term).0 q),
          λ c. (eqb_ℤ_iff x.term msg.prev_log_term).1 (same x at c),
        ),
      )
    ]
      where
        apart : get_elem? log p ≡ none → Consistent log msg → ⊥
        apart end (inl first) = ground arith
        apart end (inr (q, x, f, at, term)) = ground arith

        same :
            (x : LogEntry)
            → get_elem? log p ≡ some x
            → Consistent log msg
            → x.term ≡ msg.prev_log_term
        same x at (inl first) = ground arith
        same x at (inr (q, y, f, at', term)) = ground arith

-- The loops start at an index of the log or just behind it.
pub loop_start_lem :
    (log : List LogEntry) (msg : AppendEntriesMessage)
    → Fits log
    → Consistent log msg
    → (loop_start (add32 msg.prev_log_index (pos 1)) ≡ ok (start_of msg.prev_log_index))
      × (start_of msg.prev_log_index ≤ length log)
loop_start_lem log msg fits (inl e) = (rw (e, add32-minus_one), rw e (omega arith))
loop_start_lem log msg fits (inr (p, x, e, at, term)) =
    let lt : p < length log = lt-of_get_elem? log p at in
    (rw (e, add32-pos p 1 (omega arith)) (ap ok (omega arith)), rw e lt)

-- Stepping down and resetting the timer change no index and no entry. The term is the leader's then.
pub record Accepted (msg : AppendEntriesMessage) (w w' : Replica) : Type 0 where
  pub log : w'.node.log ≡ w.node.log
  pub commit : w'.node.commit_index ≡ w.node.commit_index
  pub applied : w'.node.last_applied ≡ w.node.last_applied
  pub term : w'.node.current_term ≡ msg.term
  pub voted : w.node.state ≡ candidate → w'.node.voted_for ≡ minus_one
  pub durable : IsDurable w → IsDurable w'

pub accept_leader-Accepted :
    (msg : AppendEntriesMessage) (w : Replica)
    → w.node.current_term ≤ℤ msg.term
    → Accepted msg w (accept_leader msg w)
unfolding accept_leader to_follower
accept_leader-Accepted msg w h =
    let stepped_down : RaftNode = record w.node {
      state = follower;
      current_term = msg.term;
      voted_for = minus_one;
    } in
    elim (Bool-cases (
      ltb_ℤ w.node.current_term msg.term
      || (eqb_ℤ w.node.current_term msg.term && is_candidate w.node.state))) [
        | inl steps ↦ rw steps (record {
          log = refl;
          commit = refl;
          applied = refl;
          term = refl;
          voted = λ _. refl;
          durable = λ _. (_, refl, Keeps-meta _ (store_node-Keeps stepped_down w.storage));
        })
        | inr stays ↦ rw stays (record {
          log = refl;
          commit = refl;
          applied = refl;
          term = ground arith;
          voted = λ c. ground arith;
          durable = λ d. (d.0, d.1, Keeps-meta _ d.2);
        })
      ]

-- The commit index moves to the leader's, as far as the log goes, and never back.
abbrev pub committed : ℤ → AppendEntriesMessage → List LogEntry → ℤ
committed c msg log =
    if ltb_ℤ c msg.leader_commit
    then (if ltb_ℤ msg.leader_commit (pos (length log)) then msg.leader_commit else last_index log)
    else c

pub record Commits (msg : AppendEntriesMessage) (w w' : Replica) : Type 0 where
  pub log : w'.node.log ≡ w.node.log
  pub applied : w'.node.last_applied ≡ w.node.last_applied
  pub term : w'.node.current_term ≡ w.node.current_term
  pub voted : w'.node.voted_for ≡ w.node.voted_for
  pub commit : w'.node.commit_index ≡ committed w.node.commit_index msg w.node.log

next_commit_lem :
    (c : ℤ) (log : List LogEntry)
    → Fits log
    → next_commit c log ≡ (if ltb_ℤ c (pos (length log)) then c else last_index log)
unfolding next_commit last_index sub32 wrap32 ◌-ℤ◌
next_commit_lem c [] h = rw (int32-of_lt 0 (omega arith))
next_commit_lem c (e ∷ log) h = ground (arith, int32-of_lt (suc (length log)))

commit_start :
    (c : ℤ) (n : ℕ)
    → minus_one ≤ℤ c
    → c <ℤ pos n
    → n < 2 ^ 31 - 1
    → (i : ℕ) × (loop_start (add32 c (pos 1)) ≡ ok i)
commit_start (pos k) n lo hi small = (k + 1, rw (add32-pos k 1 (omega arith)))
commit_start (negsuc zero) n lo hi small = (0, rw add32-minus_one)
commit_start (negsuc (suc k)) n lo hi small = absurd (omega arith)

pub commit_entries-Commits :
    (msg : AppendEntriesMessage) (w : Replica)
    → IsWellFormed w.node
    → Returns (commit_entries msg w) (Commits msg w)
unfolding commit_entries
commit_entries-Commits msg w wf =
    let (i, start) =
      commit_start w.node.commit_index (length w.node.log) (omega (arith, wf.applied, wf.ordered))
        wf.within wf.fits in
    elim (Bool-cases (ltb_ℤ w.node.commit_index msg.leader_commit)) [
      | inl newer ↦ (
        commit_from msg i w,
        rw (newer, start),
        record {
          log = refl;
          applied = refl;
          term = refl;
          voted = refl;
          commit = rw newer (next_commit_lem msg.leader_commit w.node.log wf.fits);
        },
      )
      | inr older ↦ (
        w,
        rw older,
        record { log = refl; applied = refl; term = refl; voted = refl; commit = rw older },
      )
    ]

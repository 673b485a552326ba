-- ===== src/Raft/Append/Safety.antt =====
-- `AppendEntries`: the order of the indices, and a follower's log against the leader's.
use distributed_dns.Base.{
  ℕ, ◌+◌, ◌-◌, ◌≤◌, ◌<◌, ◌≡◌, ◌⊎◌, inl, inr, refl, sym, ◌∙◌, true, some, List, [], ◌∷◌, arith,
  Returns, length, get_elem?, get_elem?-of_lt, Bool-cases,
}
use native.Mathlib.Decide.{dec_lt}
use distributed_dns.Base.Int.{ℤ, pos, minus_one, ◌≤ℤ◌, ◌<ℤ◌, ltb_ℤ}
use distributed_dns.Raft.Protos.{LogEntry, AppendEntriesMessage, AppendEntriesResponse}
use distributed_dns.Raft.Node.{Replica, Fits}
use distributed_dns.Raft.Log.{last_index}
use distributed_dns.Raft.Invariant.{IsWellFormed, start_of, IsSane, Consistent}
use distributed_dns.Raft.Append.{append_entries}
use distributed_dns.Raft.Append.Merge.{Holds, Merged}
use distributed_dns.Raft.Append.Steps.{prev_matches_lem, committed}
use distributed_dns.Raft.Append.Laws.{
  append_entries-Appends, append_entries-stale, append_entries-refused,
}

last_index-length :
    (log : List LogEntry) (c : ℤ)
    → c <ℤ pos (length log)
    → (last_index log <ℤ pos (length log)) × (c ≤ℤ last_index log)
unfolding last_index
last_index-length [] c h = ground arith
last_index-length (e ∷ log) c h = ground arith

committed_bounds :
    (c : ℤ) (msg : AppendEntriesMessage) (log : List LogEntry)
    → c <ℤ pos (length log)
    → (c ≤ℤ committed c msg log) × (committed c msg log <ℤ pos (length log))
committed_bounds c msg log h = ground (arith, last_index-length log c h)

pub Consistent-cases :
    (log : List LogEntry) (msg : AppendEntriesMessage)
    → Fits log
    → minus_one ≤ℤ msg.prev_log_index
    → Consistent log msg ⊎ (¬ Consistent log msg)
Consistent-cases log msg fits h =
    let (b, test, decides) = prev_matches_lem log msg fits h in
    elim (Bool-cases b) [
      | inl matches ↦ inl (decides.0 matches)
      | inr differs ↦ inr (λ c. cc (decides.1 c))
    ]

-- Raft's log matching: two logs with an entry of one term at one index agree up to there.
abbrev pub Matching : List LogEntry → List LogEntry → Type 0
Matching log leader =
    (k : ℕ) (x y : LogEntry)
    → get_elem? log k ≡ some x
    → get_elem? leader k ≡ some y
    → x.term ≡ y.term
    → (j : ℕ) → j ≤ k
    → get_elem? log j ≡ get_elem? leader j

-- The message holds entries of the leader's log, and the index and term of the entry before them.
pub record IsFrom (leader : List LogEntry) (msg : AppendEntriesMessage) : Type 0 where
  pub prev : Consistent leader msg
  pub copied :
      (j : ℕ) (e : LogEntry)
      → get_elem? msg.entries j ≡ some e
      → get_elem? leader (start_of msg.prev_log_index + j) ≡ some e

prev_agree :
    (log leader : List LogEntry) (msg : AppendEntriesMessage)
    → Matching log leader
    → Consistent log msg
    → Consistent leader msg
    → (j : ℕ) → j < start_of msg.prev_log_index
    → get_elem? log j ≡ get_elem? leader j
prev_agree log leader msg m (inl e) _ j lt = absurd (ground arith)
prev_agree log leader msg m (inr (p, x, e, at, term)) (inl e') j lt = absurd (ground arith)
prev_agree log leader msg m (inr (p, x, e, at, term)) (inr (q, y, e', at', term')) j lt =
    m p x y at (ground arith) (ground arith) j (ground arith)

module _ (msg : AppendEntriesMessage) (w : Replica) (wf : IsWellFormed w.node)
    (sane : IsSane msg) where
  -- `AppendEntries` of any sane message keeps a replica well-formed; neither its term nor its
  -- commit index goes down, and what is applied stays.
  pub append_entries-IsWellFormed : Returns (append_entries msg w) λ r.
      IsWellFormed r.0.node
      × (w.node.current_term ≤ℤ r.0.node.current_term)
      × (w.node.commit_index ≤ℤ r.0.node.commit_index)
      × (r.0.node.last_applied ≡ w.node.last_applied)
  append_entries-IsWellFormed = elim (Bool-cases (ltb_ℤ msg.term w.node.current_term)) [
    | inl old ↦
        let (r, run, (same, _, _)) = append_entries-stale msg w wf sane (ground arith) in
        (r, run, rw same (wf, omega arith, omega arith, refl))
    | inr new ↦
        let term : w.node.current_term ≤ℤ msg.term = ground arith in
        elim (Consistent-cases w.node.log msg wf.fits sane.prev) [
          | inl c ↦
              let (r, run, a) = append_entries-Appends msg w wf sane term c in
              let bounds =
                committed_bounds w.node.commit_index msg r.0.node.log
                  (omega (arith, a.merged.size, wf.within)) in
              (
                r,
                run,
                (
                  record {
                    fits = omega (arith, a.merged.size, wf.fits, sane.small);
                    applied = rw a.applied wf.applied;
                    ordered = rw (a.applied, a.commit) (omega (arith, bounds.0, wf.ordered));
                    within = rw a.commit bounds.1;
                  },
                  rw a.term term,
                  rw a.commit bounds.0,
                  a.applied,
                ),
              )
          | inr c ↦
              let (r, run, (no_success, reply, log, commit, applied, term', durable)) =
                append_entries-refused msg w wf sane term c in
              (
                r,
                run,
                (
                  record {
                    fits = rw log wf.fits;
                    applied = rw applied wf.applied;
                    ordered = rw (applied, commit) wf.ordered;
                    within = rw (commit, log) wf.within;
                  },
                  rw term' term,
                  rw commit (omega arith),
                  applied,
                ),
              )
        ]
  ]

  -- A follower that is well-formed, has not seen a newer term than the message, holds the entry the
  -- message builds on, and whose log matches the leader's, answers `AppendEntries` with success in
  -- the message's term, and has the leader's entries at every index up to the last entry of a
  -- message that copies the leader's log.
  pub append_entries-agree :
      (leader : List LogEntry)
      → w.node.current_term ≤ℤ msg.term
      → Matching w.node.log leader
      → IsFrom leader msg
      → Consistent w.node.log msg
      → Returns (append_entries msg w) λ r.
        (r.1.success ≡ true)
        × (r.1.term ≡ msg.term)
        × ((j : ℕ)
            → j < start_of msg.prev_log_index + length msg.entries
            → get_elem? r.0.node.log j ≡ get_elem? leader j)
  append_entries-agree leader term matching from c =
      let (r, run, a) = append_entries-Appends msg w wf sane term c in
      (
        r,
        run,
        (
          a.success,
          a.reply,
          λ j lt. agree r a.merged j lt (dec_lt j (start_of msg.prev_log_index)),
        ),
      )
    where
      held :
          (log' : List LogEntry) (k : ℕ) (e : LogEntry)
          → get_elem? leader k ≡ some e
          → Holds w.node.log log' k e
          → get_elem? log' k ≡ get_elem? leader k
      held log' k e at (inl new) = new ∙ sym at
      held log' k e at (inr (x, old, kept, same)) =
          kept ∙ sym old ∙ matching k x e old at same k (omega arith)

      agree :
          (r : Replica × AppendEntriesResponse)
          → Merged w.node.log (start_of msg.prev_log_index) msg.entries r.0.node.log
          → (j : ℕ) → j < start_of msg.prev_log_index + length msg.entries
          → Dec (j < start_of msg.prev_log_index)
          → get_elem? r.0.node.log j ≡ get_elem? leader j
      agree r m j lt (yes before) =
          m.below j before ∙ prev_agree w.node.log leader msg matching c from.prev j before
      agree r m j lt (no within) =
          let k : ℕ = j - start_of msg.prev_log_index in
          let here : start_of msg.prev_log_index + k ≡ j = omega arith in
          let (e, at) = get_elem?-of_lt msg.entries k (omega arith) in
          rw here at (
            held r.0.node.log (start_of msg.prev_log_index + k) e (from.copied k e at)
              (m.within k e at))

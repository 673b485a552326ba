-- ===== src/Raft/Append/Laws.antt =====
-- What `AppendEntries` answers, and what it makes of the log and of the indices.
use distributed_dns.Base.{
  ℕ, zero, suc, ◌+◌, ◌≡◌, ◌↔◌, inl, inr, refl, ap, ◌∙◌, Bool, true, false, some, List, [], ◌∷◌,
  arith, Returns, get_elem?, Option-cases, Bool-cases,
}
use distributed_dns.Base.Int.{ℤ, minus_one, ◌≤ℤ◌, ◌<ℤ◌, ltb_ℤ, eqb_ℤ, eqb_ℤ_iff}
use distributed_dns.Raft.Protos.{LogEntry, AppendEntriesMessage, AppendEntriesResponse}
use distributed_dns.Raft.Node.{candidate, RaftNode, Replica, persist}
use distributed_dns.Raft.Persist.{persist-IsDurable}
use distributed_dns.Raft.Invariant.{IsWellFormed, IsDurable, start_of, IsSane, Consistent}
use distributed_dns.Raft.Append.{
  scan, is_nil, answer_stale, accept_leader, append_matched, append_current, append_entries,
}
use distributed_dns.Raft.Append.Merge.{Merged, merge-Merged}
use distributed_dns.Raft.Append.Steps.{
  prev_matches_lem, loop_start_lem, Accepted, accept_leader-Accepted, committed,
  commit_entries-Commits,
}

-- Every entry of the message has its term in the log already.
abbrev pub Replicated : List LogEntry → ℕ → List LogEntry → Type 0
Replicated log i es =
    (j : ℕ) (e : LogEntry)
    → get_elem? es j ≡ some e
    → (x : LogEntry) × (get_elem? log (i + j) ≡ some x) × (x.term ≡ e.term)

-- The answer of a run that succeeds: the entries are merged, the commit index moves, and the file
-- holds the node.
pub record Appends (msg : AppendEntriesMessage) (w : Replica) (r : Replica × AppendEntriesResponse)
    : Type 0 where
  pub success : r.1.success ≡ true
  pub reply : r.1.term ≡ msg.term
  pub term : r.0.node.current_term ≡ msg.term
  pub voted : w.node.state ≡ candidate → r.0.node.voted_for ≡ minus_one
  pub merged : Merged w.node.log (start_of msg.prev_log_index) msg.entries r.0.node.log
  pub commit : r.0.node.commit_index ≡ committed w.node.commit_index msg r.0.node.log
  pub applied : r.0.node.last_applied ≡ w.node.last_applied
  pub durable : IsDurable r.0

Replicated-nil : (log : List LogEntry) (i : ℕ) → Replicated log i []
Replicated-nil log i j e h = ground arith

Replicated-cons :
    (log : List LogEntry) (i : ℕ) (x e : LogEntry) (es : List LogEntry)
    → get_elem? log i ≡ some x
    → x.term ≡ e.term
    → Replicated log (suc i) es
    → Replicated log i (e ∷ es)
Replicated-cons log i x e es at term r zero f h =
    (x, ap (get_elem? log) (omega arith) ∙ at, ground arith)
Replicated-cons log i x e es at term r (suc j) f h =
    let (y, at', term') = r j f h in (y, ap (get_elem? log) (omega arith) ∙ at', term')

Replicated-tail :
    (log : List LogEntry) (i : ℕ) (e : LogEntry) (es : List LogEntry)
    → Replicated log i (e ∷ es)
    → Replicated log (suc i) es
Replicated-tail log i e es r j f h =
    let (y, at', term') = r (suc j) f h in (y, ap (get_elem? log) (omega arith) ∙ at', term')

-- The first loop uses all the entries up exactly when the log has their terms.
scan-Replicated :
    (log : List LogEntry) (i : ℕ) (es : List LogEntry)
    → (is_nil (scan log i es).1 ≡ true) ↔ Replicated log i es
unfolding scan
scan-Replicated log i [] = (λ _. Replicated-nil log i, λ _. refl)
scan-Replicated log i (e ∷ es) = elim (Option-cases (get_elem? log i)) [
  | inl end ↦ (
    λ h. ground arith,
    λ r.
        let (x, at, term) = r 0 e refl in
        let here : i + 0 ≡ i = omega arith in ground (arith, ap (get_elem? log) here),
  )
  | inr (x, at) ↦ elim (Bool-cases (eqb_ℤ x.term e.term)) [
    | inl same ↦ (
      λ h.
          Replicated-cons log i x e es at ((eqb_ℤ_iff x.term e.term).0 same)
            ((scan-Replicated log (suc i) es).0 (rw (at, scan, same) at h)),
      λ r. rw (at, scan, same) ((scan-Replicated log (suc i) es).1 (Replicated-tail log i e es r)),
    )
    | inr other ↦ (
      λ h. ground arith,
      λ r.
          let (y, at', term) = r 0 e refl in
          let here : i + 0 ≡ i = omega arith in ground (arith, ap (get_elem? log) here),
    )
  ]
]

not-stale : (a b : ℤ) → a ≤ℤ b → ltb_ℤ b a ≡ false
not-stale a b h = ground arith

module _ (msg : AppendEntriesMessage) (w : Replica) (wf : IsWellFormed w.node)
    (sane : IsSane msg) where
  Merged-IsWellFormed :
      {n : RaftNode}
      → Merged w.node.log (start_of msg.prev_log_index) msg.entries n.log
      → n.commit_index ≡ w.node.commit_index
      → n.last_applied ≡ w.node.last_applied
      → IsWellFormed n
  Merged-IsWellFormed m c a = record {
    fits = omega (arith, m.size, wf.fits, sane.small);
    applied = rw a wf.applied;
    ordered = rw (a, c) wf.ordered;
    within = rw c (omega (arith, m.size, wf.within));
  }

  -- `AppendEntries` of a sane message of no older term, at a well-formed replica that holds the
  -- entry it builds on, succeeds in the message's term: the entries are merged into the log, the
  -- commit index becomes that of the leader as far as the log reaches, if it was behind, what is
  -- applied stays, and the file holds the node.
  pub append_entries-Appends :
      w.node.current_term ≤ℤ msg.term
      → Consistent w.node.log msg
      → Returns (append_entries msg w) (Appends msg w)
  unfolding append_entries append_current append_matched
  append_entries-Appends term c =
      let w₁ : Replica = accept_leader msg w in
      let acc : Accepted msg w w₁ = accept_leader-Accepted msg w term in
      let (b, test, decides) = prev_matches_lem w.node.log msg wf.fits sane.prev in
      let (start, inside) = loop_start_lem w.node.log msg wf.fits c in
      let (log', run, m) =
        merge-Merged w.node.log (start_of msg.prev_log_index) msg.entries inside in
      let w₂ : Replica = record w₁ { node = record w₁.node { log = log' } } in
      let (w₃, run', k) =
        commit_entries-Commits msg w₂ (Merged-IsWellFormed m acc.commit acc.applied) in
      (
        (persist w₃, record { term = msg.term; success = true }),
        rw (
          not-stale w.node.current_term msg.term term,
          acc.log,
          test,
          decides.1 c,
          start,
          run,
          run',
        ),
        record {
          success = refl;
          reply = refl;
          term = k.term ∙ acc.term;
          voted = λ c. k.voted ∙ acc.voted c;
          merged = rw k.log m;
          commit = rw k.log (k.commit ∙ ap (λ t. committed t msg log') acc.commit);
          applied = k.applied ∙ acc.applied;
          durable = persist-IsDurable w₃;
        },
      )

  -- A sane message of an older term, at a well-formed replica, changes nothing and is answered in
  -- the replica's term, with success exactly if the replica holds the entry it builds on and the
  -- terms of all its entries.
  pub append_entries-stale :
      msg.term <ℤ w.node.current_term
      → Returns (append_entries msg w) λ r.
        (r.0 ≡ w)
        × (r.1.term ≡ w.node.current_term)
        × ((r.1.success ≡ true) ↔ (
            Consistent w.node.log msg
            × Replicated w.node.log (start_of msg.prev_log_index) msg.entries))
  unfolding append_entries answer_stale
  append_entries-stale old =
      let (b, test, decides) = prev_matches_lem w.node.log msg wf.fits sane.prev in
      let stale : ltb_ℤ msg.term w.node.current_term ≡ true = ground arith in
      let rest : ℕ → Bool = λ i. is_nil (scan w.node.log i msg.entries).1 in
      elim (Bool-cases b) [
        | inl matches ↦
            let c : Consistent w.node.log msg = decides.0 matches in
            let (start, inside) = loop_start_lem w.node.log msg wf.fits c in
            let all = scan-Replicated w.node.log (start_of msg.prev_log_index) msg.entries in
            (
              (
                w,
                record { term = w.node.current_term; success = rest (start_of msg.prev_log_index) },
              ),
              rw (stale, test, matches, start),
              (refl, refl, (λ h. (c, all.0 h), λ h. all.1 h.1)),
            )
        | inr differs ↦ (
          (w, record { term = w.node.current_term; success = false }),
          rw (stale, test, differs),
          (refl, refl, (λ h. cc, λ h. cc (decides.1 h.0))),
        )
      ]

  -- A sane message of no older term that builds on an entry which a well-formed replica does not
  -- hold is refused in the message's term: the replica takes over the term and keeps its log and
  -- its indices, and its file holds the node if it did before.
  pub append_entries-refused :
      w.node.current_term ≤ℤ msg.term
      → ¬ Consistent w.node.log msg
      → Returns (append_entries msg w) λ r.
        (r.1.success ≡ false)
        × (r.1.term ≡ msg.term)
        × (r.0.node.log ≡ w.node.log)
        × (r.0.node.commit_index ≡ w.node.commit_index)
        × (r.0.node.last_applied ≡ w.node.last_applied)
        × (r.0.node.current_term ≡ msg.term)
        × (IsDurable w → IsDurable r.0)
  unfolding append_entries append_current
  append_entries-refused term c =
      let w₁ : Replica = accept_leader msg w in
      let acc : Accepted msg w w₁ = accept_leader-Accepted msg w term in
      let (b, test, decides) = prev_matches_lem w.node.log msg wf.fits sane.prev in
      elim (Bool-cases b) [
        | inl matches ↦ absurd (c (decides.0 matches))
        | inr differs ↦ (
          (w₁, record { term = msg.term; success = false }),
          rw (not-stale w.node.current_term msg.term term, acc.log, test, differs),
          (refl, refl, acc.log, acc.commit, acc.applied, acc.term, acc.durable),
        )
      ]

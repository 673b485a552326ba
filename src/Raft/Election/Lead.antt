-- ===== src/Raft/Election/Lead.antt =====
-- The loop at the end of `ToLeader` (raft/states.go): the NO-OP is sent until a majority has it or the
-- replica is no leader any more.
use distributed_dns.Base.{
  ℕ, zero, suc, ◌+◌, ◌-◌, ◌<◌, ◌^◌, ◌≡◌, ◌↔◌, refl, sym, ap, ◌∙◌, arith, Bool, true, false, List,
  [], ◌∷◌, ◌++◌, length, length-append, if◌then◌else◌,
}
use distributed_dns.Base.Int.{pos, ◌+ℤ◌, +ℤ_parts, add32, add32-next}
use distributed_dns.Raft.Node.{leader, Replica, commits_ready, persist, emit}
use distributed_dns.Raft.Log.{last_index}
use distributed_dns.Raft.Persist.{store_node-Keeps}
use distributed_dns.Raft.Invariant.{IsWellFormed, IsDurable}
use distributed_dns.Raft.States.{is_leader}
use distributed_dns.Raft.Election.{no_op, to_leader}
use distributed_dns.Raft.Election.Laws.{to_leader-starts}
use distributed_dns.Raft.Client.Writes.{last_index-append, last_index-eq}

-- Where the loop stands: the NO-OP counts as committed and heartbeats start, the replica stepped
-- down, or there was no further verdict yet.
pub data Lead : Type 0 where
  leading stopped waiting : Replica → Lead

unfoldable pub commit_no_op : Replica → Replica
commit_no_op w = emit (commits_ready (pos 1)) (
    persist
      (record w { node = record w.node { commit_index = add32 w.node.commit_index (pos 1) } }))

-- The rounds, each with its verdict and what other goroutines do until then.
unfoldable pub lead_rounds : List (Bool × (Replica → Replica)) → Replica → Lead
lead_rounds [] w = waiting w
lead_rounds ((true, others) ∷ rounds) w = leading (commit_no_op (others w))
lead_rounds ((false, others) ∷ rounds) w =
    if is_leader (others w).node.state then lead_rounds rounds (others w) else stopped (others w)

-- So many failures, then a success, and nothing else happens.
abbrev pub succeed_after : ℕ → List (Bool × (Replica → Replica))
succeed_after zero = (true, λ w. w) ∷ []
succeed_after (suc n) = (false, λ w. w) ∷ succeed_after n

lead_rounds-succeed_after :
    (n : ℕ) (w : Replica)
    → w.node.state ≡ leader
    → lead_rounds (succeed_after n) w ≡ leading (commit_no_op w)
unfolding lead_rounds
lead_rounds-succeed_after zero w lead = refl
lead_rounds-succeed_after (suc n) w lead =
    let leads : is_leader w.node.state ≡ true = ap is_leader lead in
    rw leads (lead_rounds-succeed_after n w lead)

-- What the election leaves, when the loop ends well.
pub record LeadsOn (w : Replica) (l : Lead) : Type 0 where
  pub after : Replica
  pub ends : l ≡ leading after
  pub leads : after.node.state ≡ leader
  pub term : after.node.current_term ≡ w.node.current_term
  pub log : after.node.log ≡ w.node.log ++ no_op w.node.current_term ∷ []
  pub commit : after.node.commit_index ≡ w.node.commit_index +ℤ pos 1
  pub valid : IsWellFormed after.node
  pub durable : IsDurable after
  pub committed :
      (last_index after.node.log ≡ after.node.commit_index)
      ↔ (last_index w.node.log ≡ w.node.commit_index)

-- A well-formed replica with room for one more entry becomes leader, and after any number of
-- failures a majority has its NO-OP, with nothing else changed meanwhile: it ends as a leader of
-- the term it had whose log has the NO-OP at its end and whose commit index is one more, well-
-- formed and in its file; the commit index is that of the NO-OP exactly if the whole log was
-- committed before.
pub lead_rounds-LeadsOn :
    (n : ℕ) (w : Replica)
    → IsWellFormed w.node
    → length w.node.log + 1 < 2 ^ 31 - 1
    → LeadsOn w (lead_rounds (succeed_after n) (to_leader w))
unfolding to_leader commit_no_op
lead_rounds-LeadsOn n w wf room =
    let led : Replica = to_leader w in
    let (led_valid, led_durable, led_log, led_next) = to_leader-starts w wf room in
    let longer = length-append w.node.log (no_op w.node.current_term ∷ []) in
    let next : add32 w.node.commit_index (pos 1) ≡ w.node.commit_index +ℤ pos 1 =
      add32-next w.node.commit_index (omega (arith, wf.applied, wf.ordered))
        (omega (arith, wf.within, wf.fits)) in
    let same =
      last_index-eq w.node.log w.node.commit_index (omega (arith, wf.applied, wf.ordered)) in
    let last : last_index (w.node.log ++ no_op w.node.current_term ∷ []) ≡ pos (length w.node.log) =
      last_index-append w.node.log (no_op w.node.current_term) in
    record {
      after = commit_no_op led;
      ends = lead_rounds-succeed_after n led refl;
      leads = refl;
      term = refl;
      log = refl;
      commit = next;
      valid = record {
        fits = led_valid.fits;
        applied = wf.applied;
        ordered = rw next (omega (arith, +ℤ_parts w.node.commit_index (pos 1), wf.ordered));
        within = rw next (omega (arith, +ℤ_parts w.node.commit_index (pos 1), wf.within, longer));
      };
      durable = (_, refl, store_node-Keeps _ _);
      committed = (λ e. same.0 (sym last ∙ e ∙ next), λ e. last ∙ same.1 e ∙ sym next);
    }

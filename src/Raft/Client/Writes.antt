-- ===== src/Raft/Client/Writes.antt =====
-- What a write that succeeds leaves, and which writes are refused.
use distributed_dns.Base.{
  suc, ◌+◌, ◌-◌, ◌<◌, ◌^◌, ◌≡◌, ◌↔◌, inl, inr, refl, sym, ap, ◌∙◌, Bool, true, false, ◌&&◌, Option,
  none, some, List, [], ◌∷◌, ◌++◌, arith, GoString, str_eq, deep_equal_refl, str_eq_refl, lookup,
  ok, Returns, length, length-append, get_elem?-of_lt, Bool-cases,
}
use distributed_dns.Base.Int.{
  ℤ, pos, minus_one, ◌≤ℤ◌, ◌+ℤ◌, add32, add32-next, +ℤ_parts, sub32, sub32-suc, int32-of_lt,
}
use distributed_dns.Raft.Protos.{LogEntry}
use distributed_dns.Raft.Node.{leader, Replica, Fits, entry_at, entry_at-pos, log_len}
use distributed_dns.Raft.Log.{last_index}
use distributed_dns.Raft.Persist.{store_node-Keeps}
use distributed_dns.Raft.Invariant.{IsWellFormed, IsDurable}
use distributed_dns.Raft.Client.{
  ClientError, duplicate, not_replicated, entry_of, appended, delete_op, no_op_op, is_duplicate,
  needs_value, says_no_value, append_operation, commit_operation, Surroundings, write_replicated,
  write_checked, write_command,
}

last_readable :
    (log : List LogEntry)
    → Fits log
    → 0 < length log
    → (e : LogEntry) × (entry_at log (sub32 (log_len log) (pos 1)) ≡ ok e)
last_readable [] h pos' = absurd (omega arith)
last_readable (e ∷ log) h pos' =
    let (x, at) = get_elem?-of_lt (e ∷ log) (length log) (omega arith) in
    (
      x,
      ap (λ i. entry_at (e ∷ log) (sub32 i (pos 1))) (int32-of_lt (suc (length log)) (omega arith))
          ∙ ap (entry_at (e ∷ log)) (sub32-suc (length log) (omega arith))
          ∙ entry_at-pos (e ∷ log) (length log) at,
    )

pub append_operation_run :
    (operation : List GoString) (client : GoString) (w : Replica)
    → Fits w.node.log
    → 0 < length w.node.log
    → append_operation operation client w ≡ ok (appended operation client w)
unfolding append_operation
append_operation_run operation client w fits some_entry =
    let (e, at) = last_readable w.node.log fits some_entry in rw at

-- After it waited for a read that finds a value, `WriteCommand` of a PUT or DELETE does not ask
-- again whether the replica is the leader: in whatever state the other goroutines leave the
-- replica, with a log that is not empty and fits, the operation is added to its log in its term, if
-- they keep the log while it is sent.
pub write_command-appends :
    (operation : List GoString) (client : GoString) (around : Surroundings) (w : Replica)
    → w.node.state ≡ leader
    → is_duplicate operation client w.node ≡ ok false
    → needs_value operation ≡ ok true
    → says_no_value around.read ≡ false
    → Fits (around.while_reading w).node.log
    → 0 < length (around.while_reading w).node.log
    → ((s : Replica) → (around.while_sending s).node.log ≡ s.node.log)
    → Returns (write_command operation client around w) λ r.
      r.0.node.log
      ≡ (around.while_reading w).node.log
        ++ entry_of operation client (around.while_reading w).node ∷ []
unfolding write_command write_checked write_replicated commit_operation
write_command-appends operation client around w lead fresh needs said fits some_entry kept =
    let run = append_operation_run operation client (around.while_reading w) fits some_entry in
    let sent : Replica =
      around.while_sending (appended operation client (around.while_reading w)) in
    elim (Bool-cases around.verdict) [
      | inl won ↦ (
        (commit_operation operation client sent, none),
        simp (lead, fresh, needs, said, run, won),
        kept (appended operation client (around.while_reading w)),
      )
      | inr lost ↦ (
        (sent, some not_replicated),
        simp (lead, fresh, needs, said, run, lost),
        kept (appended operation client (around.while_reading w)),
      )
    ]

abbrev pub quiet : Option GoString → Bool → Surroundings
quiet read verdict = record {
  while_reading = λ s. s;
  read = read;
  while_sending = λ s. s;
  verdict = verdict;
}

pub last_index-append :
    (log : List LogEntry) (e : LogEntry) → last_index (log ++ e ∷ []) ≡ pos (length log)
unfolding last_index
last_index-append [] e = refl
last_index-append (x ∷ log) e = ap pos (length-append log (e ∷ []) ∙ omega arith)

pub last_index-eq :
    (log : List LogEntry) (c : ℤ)
    → minus_one ≤ℤ c
    → (pos (length log) ≡ c +ℤ pos 1) ↔ (last_index log ≡ c)
unfolding last_index ◌+ℤ◌
last_index-eq [] c h = (λ e. ground arith, λ e. ground arith)
last_index-eq (x ∷ log) c h = (λ e. ground arith, λ e. ground arith)

-- What a write that is acknowledged leaves of a leader that nothing else disturbs.
pub record Acknowledged (operation : List GoString) (client : GoString) (w : Replica)
    (r : Replica × Option ClientError) : Type 0 where
  pub no_error : r.1 ≡ none
  pub log : r.0.node.log ≡ w.node.log ++ entry_of operation client w.node ∷ []
  pub commit : r.0.node.commit_index ≡ w.node.commit_index +ℤ pos 1
  pub valid : IsWellFormed r.0.node
  pub durable : IsDurable r.0

module _ (operation : List GoString) (client : GoString) (w : Replica) (wf : IsWellFormed w.node)
    (room : length w.node.log + 1 < 2 ^ 31 - 1) where
  abbrev final : Replica
  final = commit_operation operation client (appended operation client w)

  final-Acknowledged : Acknowledged operation client w (final, none)
  unfolding commit_operation
  final-Acknowledged =
      let longer = length-append w.node.log (entry_of operation client w.node ∷ []) in
      let next : add32 w.node.commit_index (pos 1) ≡ w.node.commit_index +ℤ pos 1 =
        add32-next w.node.commit_index (omega (arith, wf.applied, wf.ordered))
          (omega (arith, wf.within, wf.fits)) in
      record {
        no_error = refl;
        log = refl;
        commit = next;
        valid = record {
          fits = omega (arith, longer, room);
          applied = wf.applied;
          ordered = rw next (omega (arith, +ℤ_parts w.node.commit_index (pos 1), wf.ordered));
          within = rw next (omega (arith, +ℤ_parts w.node.commit_index (pos 1), wf.within, longer));
        };
        durable = (_, refl, store_node-Keeps _ _);
      }

  module _ (read : Option GoString) (needs : Bool) (some_entry : 0 < length w.node.log)
      (lead : w.node.state ≡ leader) (fresh : is_duplicate operation client w.node ≡ ok false)
      (needed : needs_value operation ≡ ok needs)
      (there : (needs && says_no_value read) ≡ false) where
    -- A write that is no repetition, at a well-formed leader with an entry in its log and room for
    -- one more, that finds the value it needs, is replicated by a majority and is not disturbed by
    -- other goroutines, is acknowledged: its entry is the last of the log, the commit index is one
    -- more, the node is well-formed, and the file holds it.
    pub write_command-Acknowledged :
        Returns
          (write_command operation client (quiet read true) w)
          (Acknowledged operation client w)
    unfolding write_command write_checked write_replicated
    write_command-Acknowledged = (
      (final, none),
      ground (arith, append_operation_run operation client w wf.fits some_entry),
      final-Acknowledged,
    )

    -- A write that is no repetition, at a well-formed leader with an entry in its log and room for
    -- one more, that finds the value it needs, is replicated by a majority and is not disturbed by
    -- other goroutines, is acknowledged without an error, and the commit index then is the index of
    -- the last entry exactly if it was before the write.
    pub write_command-committed : Returns (write_command operation client (quiet read true) w) λ r.
        (r.1 ≡ none)
        × ((last_index r.0.node.log ≡ r.0.node.commit_index)
            ↔ (last_index w.node.log ≡ w.node.commit_index))
    write_command-committed =
        let (r, run, a) = write_command-Acknowledged in
        let same =
          last_index-eq w.node.log w.node.commit_index (omega (arith, wf.applied, wf.ordered)) in
        let last : last_index r.0.node.log ≡ pos (length w.node.log) =
          ap last_index a.log ∙ last_index-append w.node.log (entry_of operation client w.node) in
        (
          r,
          run,
          (
            a.no_error,
            (λ e. same.0 (sym last ∙ e ∙ a.commit), λ e. last ∙ same.1 e ∙ sym a.commit),
          ),
        )

-- At a leader, a write with a key and a value that is no DELETE or NO-OP and repeats the last
-- operation of its client, who is also the client that wrote last, is refused and changes nothing.
pub write_command-duplicate :
    (op key value client : GoString) (around : Surroundings) (w : Replica)
    → w.node.state ≡ leader
    → str_eq op delete_op ≡ false
    → str_eq op no_op_op ≡ false
    → lookup client w.node.track_message ≡ some (op ∷ key ∷ value ∷ [])
    → w.node.meta.latest_client ≡ client
    → write_command (op ∷ key ∷ value ∷ []) client around w ≡ ok (w, some duplicate)
unfolding write_command is_duplicate
write_command-duplicate op key value client around w lead d n last same =
    simp (lead, last, d, n, same, deep_equal_refl (op ∷ key ∷ value ∷ []), str_eq_refl client)

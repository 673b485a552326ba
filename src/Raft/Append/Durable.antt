-- ===== src/Raft/Append/Durable.antt =====
-- `AppendEntries` and the file.
use distributed_dns.Base.{arith, inl, inr, Bool-cases, Returns}
use distributed_dns.Base.Int.{ltb_ℤ, ◌≤ℤ◌}
use distributed_dns.Raft.Protos.{AppendEntriesMessage}
use distributed_dns.Raft.Node.{Replica}
use distributed_dns.Raft.Invariant.{IsWellFormed, IsDurable, IsSane}
use distributed_dns.Raft.Append.{append_entries}
use distributed_dns.Raft.Append.Laws.{
  append_entries-Appends, append_entries-stale, append_entries-refused,
}
use distributed_dns.Raft.Append.Safety.{Consistent-cases}

-- `AppendEntries` of any sane message at a well-formed replica whose file holds the node leaves a
-- file that holds the node.
pub append_entries-IsDurable :
    (msg : AppendEntriesMessage) (w : Replica)
    → IsWellFormed w.node
    → IsSane msg
    → IsDurable w
    → Returns (append_entries msg w) λ r. IsDurable r.0
append_entries-IsDurable msg w wf sane d = elim (Bool-cases (ltb_ℤ msg.term w.node.current_term)) [
  | inl old ↦
      let (r, run, (same, _, _)) = append_entries-stale msg w wf sane (ground arith) in
      (r, run, rw same d)
  | inr new ↦
      let term : w.node.current_term ≤ℤ msg.term = ground arith in
      elim (Consistent-cases w.node.log msg wf.fits sane.prev) [
        | inl c ↦
            let (r, run, a) = append_entries-Appends msg w wf sane term c in (r, run, a.durable)
        | inr c ↦
            let (r, run, (_, _, _, _, _, _, durable)) =
              append_entries-refused msg w wf sane term c in
            (r, run, durable d)
      ]
]

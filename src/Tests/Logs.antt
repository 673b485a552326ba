-- ===== src/Tests/Logs.antt =====
-- `AppendEntries` and `LeaderSendAE` at a follower whose log differs from the leader's.
use distributed_dns.Base.{
  ℕ, zero, suc, ◌+◌, ◌<◌, ◌≡◌, ◌↔◌, refl, inl, inr, true, false, arith, [], ◌∷◌, some, Returns,
  length, get_elem?, bytes,
}
use distributed_dns.Base.Int.{pos, ◌≤ℤ◌}
use distributed_dns.Raft.Protos.{LogEntry, AppendEntriesMessage}
use distributed_dns.Raft.Election.{no_op}
use distributed_dns.Raft.Invariant.{IsWellFormed, start_of, IsSane, IsDurable, Consistent}
use distributed_dns.Raft.Append.{append_entries}
use distributed_dns.Raft.Append.Laws.{
  Appends, Replicated, append_entries-Appends, append_entries-stale, append_entries-refused,
}
use distributed_dns.Raft.Append.Safety.{
  Matching, IsFrom, append_entries-IsWellFormed, append_entries-agree,
}
use distributed_dns.Raft.Append.Durable.{append_entries-IsDurable}
use distributed_dns.Raft.Persist.{store_node-Keeps}
use distributed_dns.Raft.Replicate.{base_message}
use distributed_dns.Tests.Replicas.{posted, leader_log, stale_log, follower_1, leader_0}

-- From index 2 on, behind an entry that the follower does not have.
abbrev late_message : AppendEntriesMessage
late_message = record (base_message leader_0.node) {
  prev_log_index = pos 1;
  prev_log_term = pos 2;
  entries = posted 2 (bytes "k") ∷ [];
}

-- From index 1 on.
abbrev early_message : AppendEntriesMessage
early_message = record (base_message leader_0.node) {
  prev_log_index = pos 0;
  prev_log_term = pos 1;
  entries = no_op (pos 2) ∷ posted 2 (bytes "k") ∷ [];
}

-- The same from a leader of term 0.
abbrev old_message : AppendEntriesMessage
old_message = record early_message { term = pos 0 }

pub follower_valid : IsWellFormed follower_1.node
follower_valid = omega arith

early-IsSane : IsSane early_message
early-IsSane = omega arith

late-IsSane : IsSane late_message
late-IsSane = omega arith

old-IsSane : IsSane old_message
old-IsSane = omega arith

pub matching : Matching stale_log leader_log
matching zero x y at at' same zero le = ground arith
matching zero x y at at' same (suc j) le = absurd (omega arith)
matching (suc zero) x y at at' same j le = absurd (ground arith)
matching (suc (suc zero)) x y at at' same j le = absurd (ground arith)
matching (suc (suc (suc k))) x y at at' same j le = absurd (ground arith)

early-Consistent : Consistent stale_log early_message
early-Consistent = inr (0, no_op (pos 1), refl, refl, refl)

late_not-Consistent : ¬ Consistent stale_log late_message
late_not-Consistent (inl e) = ground arith
late_not-Consistent (inr (zero, x, e, at, term)) = ground arith
late_not-Consistent (inr (suc zero, x, e, at, term)) = ground arith
late_not-Consistent (inr (suc (suc p), x, e, at, term)) = ground arith

early_copied : IsFrom leader_log early_message
early_copied = record { prev = inr (0, no_op (pos 1), refl, refl, refl); copied = copied }
  where
    copied :
        (j : ℕ) (e : LogEntry)
        → get_elem? early_message.entries j ≡ some e
        → get_elem? leader_log (1 + j) ≡ some e
    copied zero e at = at
    copied (suc zero) e at = at
    copied (suc (suc j)) e at = ground arith

append_entries-Appends_example :
    Returns (append_entries early_message follower_1) (Appends early_message follower_1)
append_entries-Appends_example =
    append_entries-Appends early_message follower_1 follower_valid early-IsSane (omega arith)
      early-Consistent

append_entries-stale_example : Returns (append_entries old_message follower_1) λ r.
    (r.0 ≡ follower_1)
    × (r.1.term ≡ follower_1.node.current_term)
    × ((r.1.success ≡ true) ↔ (
        Consistent follower_1.node.log old_message
        × Replicated follower_1.node.log (start_of old_message.prev_log_index) old_message.entries))
append_entries-stale_example =
    append_entries-stale old_message follower_1 follower_valid old-IsSane (omega arith)

append_entries-refused_example : Returns (append_entries late_message follower_1) λ r.
    (r.1.success ≡ false)
    × (r.1.term ≡ late_message.term)
    × (r.0.node.log ≡ follower_1.node.log)
    × (r.0.node.commit_index ≡ follower_1.node.commit_index)
    × (r.0.node.last_applied ≡ follower_1.node.last_applied)
    × (r.0.node.current_term ≡ late_message.term)
    × (IsDurable follower_1 → IsDurable r.0)
append_entries-refused_example =
    append_entries-refused late_message follower_1 follower_valid late-IsSane (omega arith)
      late_not-Consistent

append_entries-IsWellFormed_example : Returns (append_entries early_message follower_1) λ r.
    IsWellFormed r.0.node
    × (follower_1.node.current_term ≤ℤ r.0.node.current_term)
    × (follower_1.node.commit_index ≤ℤ r.0.node.commit_index)
    × (r.0.node.last_applied ≡ follower_1.node.last_applied)
append_entries-IsWellFormed_example =
    append_entries-IsWellFormed early_message follower_1 follower_valid early-IsSane

append_entries-IsDurable_example :
    Returns (append_entries late_message follower_1) λ r. IsDurable r.0
append_entries-IsDurable_example =
    append_entries-IsDurable late_message follower_1 follower_valid late-IsSane
      (_, refl, store_node-Keeps follower_1.node [])

append_entries-agree_example : Returns (append_entries early_message follower_1) λ r.
    (r.1.success ≡ true)
    × (r.1.term ≡ early_message.term)
    × ((j : ℕ)
        → j < start_of early_message.prev_log_index + length early_message.entries
        → get_elem? r.0.node.log j ≡ get_elem? leader_log j)
append_entries-agree_example =
    append_entries-agree early_message follower_1 follower_valid early-IsSane leader_log
      (omega arith) matching early_copied early-Consistent

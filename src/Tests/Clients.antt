-- ===== src/Tests/Clients.antt =====
-- A write and a read at a leader whose peers answer, one of them over a connection that loses a reply.
use distributed_dns.Base.{
  ◌≡◌, refl, arith, [], Returns, GoString, bytes, none, some, ok, ap, ◌∙◌, lookup, str_eq,
  Bool-cases, inl, inr, some_injective, sym,
}
use distributed_dns.Raft.Node.{Replica}
use distributed_dns.Raft.Client.{body, is_duplicate, needs_value, commit_operation}
use distributed_dns.Raft.Client.Reads.{await_applied}
use distributed_dns.Raft.Client.Submit.{submit}
use distributed_dns.Raft.Client.Submit.Majority.{Acknowledges, submit-Acknowledges}
use distributed_dns.Raft.Client.Peers.{Write, Query, write_key, write_locked}
use distributed_dns.Raft.Client.Peers.Backing.{CanAdd, Sends, Backed, write_key-Backed}
use distributed_dns.Raft.Replicate.Converge.{answer, with_both}
use distributed_dns.Raft.Replicate.Broadcast.{targets}
use distributed_dns.Raft.Replicate.Broadcast.Majority.{reliable, targets_of}
use distributed_dns.Tests.Replicas.{leader_0}
use distributed_dns.Tests.Broadcast.{operation, links, can_send, sender}

abbrev client : GoString
client = bytes "c"

abbrev write : Write
write = record { sleeps = []; relocking = λ w. w; while_reading = λ w. w; read = none }

write_run :
    write_key answer 5 operation client write leader_0 links
    ≡ submit answer 5 operation client leader_0 links
unfolding write_key write_locked await_applied is_duplicate needs_value lookup str_eq
write_run = refl

waited_leader : (v : Replica) → await_applied [] leader_0 ≡ some v → leader_0 ≡ v
unfolding await_applied
waited_leader v e = some_injective e

at_leader : (u : Replica) → Sends operation write leader_0 u → u ≡ leader_0
at_leader u s = elim (Bool-cases s.needs) [
  | inl e ↦ rw e at s.same ∙ sym (waited_leader s.waited_to s.waits)
  | inr e ↦ rw e at s.same ∙ sym (waited_leader s.waited_to s.waits)
]

adds : CanAdd 5 operation client leader_0 links
adds = record { some_log = omega arith; fits = omega arith; sends = can_send; enough = omega arith }

can_add : (u : Replica) → Sends operation write leader_0 u → CanAdd 5 operation client u links
can_add u s = rw (at_leader u s) adds

submission :
    Returns
      (submit answer 5 operation client leader_0 links)
      (Acknowledges operation client leader_0 links)
submission =
    submit-Acknowledges 5 operation client leader_0 links (omega arith) (omega arith) can_send
      (omega arith)

abbrev entry_at_majority : Acknowledges operation client leader_0 links (submission.0)
entry_at_majority = submission.2

abbrev written : Replica
written =
    commit_operation operation client
      (with_both sender entry_at_majority.nexts entry_at_majority.matches)

one_reliable : reliable links (targets_of leader_0) ≡ 1
unfolding targets
one_reliable = refl

acknowledged :
    write_key answer 5 operation client write leader_0 links
    ≡ ok (some ((written, none), entry_at_majority.after))
acknowledged =
    write_run ∙ submission.1 ∙ ap ok (entry_at_majority.complete (omega (arith, one_reliable)))

write_key-Backed_example :
    (u : Replica) × Sends operation write leader_0 u
    × Backed operation client u written entry_at_majority.after
write_key-Backed_example =
    write_key-Backed 5 operation client write leader_0 links can_add written entry_at_majority.after
      acknowledged

abbrev query : Query
query = record { sleeps = []; others = λ w. w; answer = body (bytes "v") }

waits : await_applied [] leader_0 ≡ some leader_0
unfolding await_applied
waits = refl

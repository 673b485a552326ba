-- ===== src/Tests/Broadcast.antt =====
-- A leader that sends a new entry to two replicas, one of them over a connection that loses calls.
use distributed_dns.Base.{
  ℕ, zero, suc, ◌<◌, ◌≡◌, refl, arith, List, [], ◌∷◌, Returns, GoString, bytes, get_elem?, some,
  none, Run, ok, fault, panic, Option, false, ◌≢◌,
}
use distributed_dns.Base.Int.{pos, sub32, wrap32, ◌-ℤ◌}
use distributed_dns.Raft.Protos.{AppendEntriesMessage, AppendEntriesResponse}
use distributed_dns.Raft.Node.{Replica}
use distributed_dns.Raft.Append.Safety.{Matching}
use distributed_dns.Raft.Invariant.{start_of}
use distributed_dns.Raft.Client.{put_op, appended}
use distributed_dns.Raft.Replicate.{
  base_message, send_loop, handle_reply, handle_refusal, retry, copy_entries, term_before,
}
use distributed_dns.Raft.Replicate.Termination.{send_loop-none}
use distributed_dns.Raft.Replicate.Retry.{Leads, Follows}
use distributed_dns.Raft.Replicate.Converge.{arrives, reply_lost, Link, answer}
use distributed_dns.Raft.Replicate.Broadcast.{targets, leader_send_aes}
use distributed_dns.Raft.Replicate.Broadcast.Goroutine.{Ready}
use distributed_dns.Raft.Replicate.Broadcast.Majority.{
  CanSend, Replicated, leader_send_aes-Replicated,
}
use distributed_dns.Tests.Replicas.{leader_0, follower_1, stale_log}

abbrev pub operation : List GoString
operation = put_op ∷ bytes "k" ∷ bytes "w" ∷ []

abbrev pub sender : Replica
sender = appended operation (bytes "c") leader_0

abbrev pub links : ℕ → Link
links (suc zero) = (follower_1, arrives ∷ reply_lost ∷ [])
links _ = (follower_1, [])

matching : Matching stale_log sender.node.log
matching zero x y at at' same zero le = ground arith
matching zero x y at at' same (suc j) le = absurd (omega arith)
matching (suc zero) x y at at' same j le = absurd (ground arith)
matching (suc (suc zero)) x y at at' same j le = absurd (ground arith)
matching (suc (suc (suc zero))) x y at at' same j le = absurd (ground arith)
matching (suc (suc (suc (suc k)))) x y at at' same j le = absurd (ground arith)

follows : Follows sender follower_1
follows = record { valid = omega arith; term = omega arith; matching = matching }

leads : (id : ℕ) → id < 3 → Leads sender id 3
leads id lt = record {
  leads = refl;
  fits = omega arith;
  next = lt;
  match = lt;
  within = omega arith;
}

ready :
    (id : ℕ)
    → id < 3
    → get_elem? sender.node.next_index id ≡ some (pos 2)
    → Ready sender 3 id follower_1
ready id lt at = record {
  leads = leads id lt;
  follows = follows;
  next = 2;
  at = at;
  small = omega arith;
}

pub can_send : CanSend sender 3 links
unfolding targets
can_send = record {
  places = refl;
  own = omega arith;
  several = omega arith;
  ready = (ready 1 (omega arith) refl, (ready 2 (omega arith) refl, tt));
}

leader_send_aes-Replicated_example :
    Returns
      (leader_send_aes answer 5 (pos 3) (base_message sender.node) sender links)
      (Replicated sender 3 links)
leader_send_aes-Replicated_example =
    leader_send_aes-Replicated 5 sender 3 (base_message sender.node) links can_send refl
      (omega arith)

-- A peer that refuses every message.
abbrev refuses : AppendEntriesMessage → ℕ → Run (ℕ × Option AppendEntriesResponse)
refuses msg calls = ok (suc calls, some (record { term = msg.term; success = false }))

abbrev first : AppendEntriesMessage
first = record (base_message sender.node) { prev_log_index = pos 1 }

send_loop-none_example :
    (send_loop refuses 3 1 (pos 3) first sender 0 ≢ ok none)
    × ((response : AppendEntriesResponse) (w' w'' : Replica) (msg' : AppendEntriesMessage)
        → handle_reply 1 (pos 3) first response w' ≡ ok (retry msg' w'')
        → suc (start_of msg'.prev_log_index) ≡ start_of first.prev_log_index)
send_loop-none_example = send_loop-none refuses 3 1 3 first sender 0 (omega arith) (omega arith)

-- The third refusal is at the previous index -1.
refused : send_loop refuses 3 1 (pos 3) first sender 0 ≡ fault panic
unfolding send_loop handle_reply handle_refusal copy_entries term_before sub32 wrap32 ◌-ℤ◌
refused = refl

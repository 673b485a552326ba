-- ===== src/Raft/Replicate.antt =====
-- raft/send_AEs.go: the message that a goroutine of `LeaderSendAEs` sends to one replica, and
-- `LeaderSendAE`, which sends it and tries again from an earlier index after a refusal.
pub mod Heartbeats
pub mod Broadcast
pub mod Messages
pub mod Retry
pub mod Connection
pub mod Converge
pub mod Termination
pub mod Shared
use distributed_dns.Base.{
  ℕ, zero, suc, ◌+◌, ◌-◌, ◌<◌, ◌≡◌, refl, lt→ltb, Bool, true, false, Option, none, some, List, [],
  ◌∷◌, Run, ok, fault, panic, ◌>>=◌, length, get_elem?, set, ltb, if◌then◌else◌,
}
use distributed_dns.Base.Int.{ℤ, pos, negsuc, minus_one, add32, sub32, ltb_ℤ, leb_ℤ}
use distributed_dns.Raft.Protos.{LogEntry, AppendEntriesMessage, AppendEntriesResponse}
use distributed_dns.Raft.Node.{RaftNode, Replica, entry_at}
use distributed_dns.Raft.States.{is_leader, to_follower}

-- `for i := lo; i <= hi; i++ { entries = append(entries, &node.log[i]) }`, `n` rounds from `i` on.
unfoldable pub copy_loop : List LogEntry → ℕ → ℕ → Run (List LogEntry)
copy_loop log i zero = ok []
copy_loop log i (suc n) = do e ← entry_at log (pos i); es ← copy_loop log (suc i) n; ok (e ∷ es)

unfoldable pub copy_entries : List LogEntry → ℤ → ℤ → Run (List LogEntry)
unfolding copy_loop
copy_entries log (pos lo) (pos hi) = copy_loop log lo (suc hi - lo)
copy_entries log (pos lo) (negsuc hi) = ok []
copy_entries log (negsuc lo) hi = if leb_ℤ (negsuc lo) hi then fault panic else ok []

-- `prevLogTerm`
unfoldable pub term_before : List LogEntry → ℤ → Run ℤ
term_before log prev =
    if leb_ℤ (pos 0) prev then (do e ← entry_at log prev; ok e.term) else ok minus_one

-- The message from index `prev + 1` up to `upper`, on the term, commit index and addresses of `base`.
unfoldable pub fill_message :
    List LogEntry → ℤ → ℤ → AppendEntriesMessage → Run AppendEntriesMessage
fill_message log prev upper base = do
  term ← term_before log prev
  es ← copy_entries log (add32 prev (pos 1)) upper
  ok (record base { prev_log_index = prev; prev_log_term = term; entries = es })

-- What the callers of `LeaderSendAEs` put into the message, before any entry.
abbrev pub base_message : RaftNode → AppendEntriesMessage
base_message n = record {
  term = n.current_term;
  leader_id = pos n.meta.replica_id;
  prev_log_index = pos 0;
  prev_log_term = pos 0;
  leader_commit = n.commit_index;
  entries = [];
  leader_addr = n.meta.node_address;
  latest_client = n.meta.latest_client;
}

-- `list[i] = v`, which panics out of range.
abbrev pub write_at {ℓ} : {A : Type ℓ} → List A → ℕ → A → Run (List A)
write_at xs i v = if ltb i (length xs) then ok (set xs i v) else fault panic

abbrev pub read_at {ℓ} : {A : Type ℓ} → List A → ℕ → Run A
read_at xs i = elim (get_elem? xs i) [ none ↦ fault panic | some a ↦ ok a ]

-- The first message of a goroutine: from `nextIndex` of the replica on.
unfoldable pub first_message : ℕ → ℤ → RaftNode → Run AppendEntriesMessage
unfolding fill_message
first_message id upper n = do
  next ← read_at n.next_index id
  fill_message n.log (sub32 next (pos 1)) upper (base_message n)

-- What follows a reply: the outcome of `LeaderSendAE`, or one more round with a new message.
pub data Next : Type 0 where
  return : Bool → Replica → Next
  retry : AppendEntriesMessage → Replica → Next

unfoldable pub handle_refusal :
    ℕ → ℤ → AppendEntriesMessage → AppendEntriesResponse → Replica → Run Next
handle_refusal id upper msg response w =
    if is_leader w.node.state
    then (if ltb_ℤ w.node.current_term response.term
        then ok (return false (to_follower response.term w))
        else (do
          next ← read_at w.node.next_index id
          nexts ← write_at w.node.next_index id (sub32 next (pos 1))
          es ← copy_entries w.node.log msg.prev_log_index upper
          let prev = sub32 msg.prev_log_index (pos 1)
          term ← term_before w.node.log prev
          ok (
              retry
                (record (base_message w.node) {
                  prev_log_index = prev;
                  prev_log_term = term;
                  entries = es;
                })
                (record w { node = record w.node { next_index = nexts } }))))
    else ok (return false w)

unfoldable pub handle_success : ℕ → ℤ → AppendEntriesResponse → Replica → Run Next
handle_success id upper response w =
    if ltb_ℤ w.node.current_term response.term
    then ok (return true (to_follower response.term w))
    else (do
      nexts ← write_at w.node.next_index id (add32 upper (pos 1))
      matches ← write_at w.node.match_index id upper
      ok (
          return true
            (record w { node = record w.node { next_index = nexts; match_index = matches } })))

unfoldable pub handle_reply :
    ℕ → ℤ → AppendEntriesMessage → AppendEntriesResponse → Replica → Run Next
handle_reply id upper msg response w =
    if response.success
    then handle_success id upper response w
    else handle_refusal id upper msg response w

-- `LeaderSendAE` against a peer: `call` is the RPC, with the peer's state, which a call can change also
-- if it ends with an error such as the time limit, `none` here. The leader's state stays as it is
-- between the rounds. The number bounds the rounds; `none` as the result means that it was too small.
module _ {F : Type 0}
    (call : AppendEntriesMessage → F → Run (F × Option AppendEntriesResponse)) where
  unfoldable pub send_loop :
      ℕ → ℕ → ℤ → AppendEntriesMessage → Replica → F → Run (Option (Bool × Replica × F))
  send_loop zero id upper msg w f = ok none
  send_loop (suc fuel) id upper msg w f = do
    (f', response) ← call msg f
    elim response [
      | none ↦ ok (some (false, w, f'))
      | some reply ↦ do
        next ← handle_reply id upper msg reply w
        elim next [
          | return outcome w' ↦ ok (some (outcome, w', f'))
          | retry msg' w' ↦ send_loop fuel id upper msg' w' f'
        ]
    ]

pub read_at_lem {ℓ} :
    {A : Type ℓ} (xs : List A) (i : ℕ) {a : A} → get_elem? xs i ≡ some a → read_at xs i ≡ ok a
read_at_lem xs i h = rw (h, read_at)

pub write_at_lem {ℓ} :
    {A : Type ℓ} (xs : List A) (i : ℕ) (v : A) → i < length xs → write_at xs i v ≡ ok (set xs i v)
write_at_lem xs i v h = rw (lt→ltb i (length xs) h)

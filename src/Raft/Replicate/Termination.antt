-- ===== src/Raft/Replicate/Termination.antt =====
-- `LeaderSendAE` (raft/send_AEs.go) against a peer of any behaviour comes to an end.
use distributed_dns.Base.{
  ℕ, zero, suc, ◌^◌, ◌≤◌, ◌<◌, ◌≡◌, ◌≢◌, refl, ap, arith, Bool, false, Option, some, none, Run, ok,
  ◌>>=◌, Always, Always-bind, Always-ok, Always-if, List,
}
use distributed_dns.Base.Int.{ℤ, pos, negsuc, sub32, add32, ltb_ℤ, sub32-suc, sub32-zero}
use distributed_dns.Raft.Protos.{LogEntry, AppendEntriesMessage, AppendEntriesResponse}
use distributed_dns.Raft.Node.{Replica}
use distributed_dns.Raft.States.{is_leader}
use distributed_dns.Raft.Invariant.{start_of}
use distributed_dns.Raft.Replicate.{
  Next, return, retry, copy_entries, handle_reply, handle_refusal, handle_success, read_at,
  write_at, term_before, send_loop,
}

-- A next message is on the index before.
abbrev Lowers : AppendEntriesMessage → Next → Type 0
Lowers msg (return outcome w) = 0 ≤ 0
Lowers msg (retry msg' w) = suc (start_of msg'.prev_log_index) ≡ start_of msg.prev_log_index

back-start : (p : ℕ) → p < 2 ^ 31 → start_of (sub32 (pos p) (pos 1)) ≡ p
back-start zero h = ap start_of sub32-zero
back-start (suc n) h = ap start_of (sub32-suc n (omega arith))

-- From -1 there is no entry to copy one index further down, so a copy shows that there was an index.
lower :
    (w : Replica) (upper : ℕ) (prev : ℤ) (es : List LogEntry)
    → copy_entries w.node.log prev (pos upper) ≡ ok es
    → start_of prev ≤ 2 ^ 31
    → suc (start_of (sub32 prev (pos 1))) ≡ start_of prev
unfolding copy_entries
lower w upper (pos p) es run small = ground (arith, back-start p (omega arith))
lower w upper (negsuc n) es run small = ground arith

refusal-Lowers :
    (id upper : ℕ) (msg : AppendEntriesMessage) (response : AppendEntriesResponse) (w : Replica)
    → start_of msg.prev_log_index ≤ 2 ^ 31
    → Always (Lowers msg) (handle_refusal id (pos upper) msg response w)
unfolding handle_refusal
refusal-Lowers id upper msg response w small =
    Always-if (is_leader w.node.state) _ _
      (Always-if (ltb_ℤ w.node.current_term response.term) _ _
        (Always-ok (Lowers msg) (ground arith))
        (Always-bind (read_at w.node.next_index id) _ λ next _.
          Always-bind (write_at w.node.next_index id (sub32 next (pos 1))) _ λ nexts _.
            Always-bind (copy_entries w.node.log msg.prev_log_index (pos upper)) _ λ es run.
              Always-bind (term_before w.node.log (sub32 msg.prev_log_index (pos 1))) _
                λ term _. Always-ok (Lowers msg) (lower w upper msg.prev_log_index es run small)))
      (Always-ok (Lowers msg) (ground arith))

success-Lowers :
    (id upper : ℕ) (msg : AppendEntriesMessage) (response : AppendEntriesResponse) (w : Replica)
    → Always (Lowers msg) (handle_success id (pos upper) response w)
unfolding handle_success
success-Lowers id upper msg response w =
    Always-if (ltb_ℤ w.node.current_term response.term) _ _ (Always-ok (Lowers msg) (ground arith))
      (Always-bind (write_at w.node.next_index id (add32 (pos upper) (pos 1))) _ λ nexts _.
        Always-bind (write_at w.node.match_index id (pos upper)) _
          λ matches _. Always-ok (Lowers msg) (ground arith))

reply-Lowers :
    (id upper : ℕ) (msg : AppendEntriesMessage) (response : AppendEntriesResponse) (w : Replica)
    → start_of msg.prev_log_index ≤ 2 ^ 31
    → Always (Lowers msg) (handle_reply id (pos upper) msg response w)
unfolding handle_reply
reply-Lowers id upper msg response w small =
    Always-if response.success _ _ (success-Lowers id upper msg response w)
      (refusal-Lowers id upper msg response w small)

module _ {F : Type 0}
    (call : AppendEntriesMessage → F → Run (F × Option AppendEntriesResponse)) where
  -- What follows one call, when the rounds to come end.
  after_call :
      (fuel id upper : ℕ) (msg : AppendEntriesMessage) (w : Replica) (f' : F)
      (response : Option AppendEntriesResponse)
      → start_of msg.prev_log_index ≤ 2 ^ 31
      → ((msg' : AppendEntriesMessage) (w' : Replica)
          → suc (start_of msg'.prev_log_index) ≡ start_of msg.prev_log_index
          → Always (λ r. r ≢ none) (send_loop call fuel id (pos upper) msg' w' f'))
      → Always {T = Option (Bool × Replica × F)}
          (λ r. r ≢ none)
          (elim response [
            | none ↦ ok (some (false, w, f'))
            | some reply ↦ do
              next ← handle_reply id (pos upper) msg reply w
              elim next [
                | return outcome w' ↦ ok (some (outcome, w', f'))
                | retry msg' w' ↦ send_loop call fuel id (pos upper) msg' w' f'
              ]
          ])
  after_call fuel id upper msg w f' none small rest = Always-ok (λ r. r ≢ none) (λ e. cc)
  after_call fuel id upper msg w f' (some reply) small rest =
      Always-bind (handle_reply id (pos upper) msg reply w) _
        λ next run. go next (reply-Lowers id upper msg reply w small next run)
    where
      go :
          (next : Next)
          → Lowers msg next
          → Always {T = Option (Bool × Replica × F)}
              (λ r. r ≢ none)
              (elim next [
                | return outcome w' ↦ ok (some (outcome, w', f'))
                | retry msg' w' ↦ send_loop call fuel id (pos upper) msg' w' f'
              ])
      go (return outcome w') below = Always-ok (λ r. r ≢ none) (λ e. cc)
      go (retry msg' w') below = rest msg' w' below

  loop-Always :
      (fuel id upper : ℕ) (msg : AppendEntriesMessage) (w : Replica) (f : F)
      → start_of msg.prev_log_index ≤ 2 ^ 31
      → start_of msg.prev_log_index < fuel
      → Always (λ r. r ≢ none) (send_loop call fuel id (pos upper) msg w f)
  unfolding send_loop
  loop-Always zero id upper msg w f small enough = ground arith
  loop-Always (suc fuel) id upper msg w f small enough =
      Always-bind (call msg f) _ λ (f', response) _.
        after_call fuel id upper msg w f' response small
          (λ msg' w' below. loop-Always fuel id upper msg' w' f' (omega arith) (omega arith))

  -- `LeaderSendAE` never runs out of rounds against a peer of any behaviour, with a number of
  -- rounds above the index that the first message starts at, which fits an `int32`; and whatever
  -- the leader's state, a refusal of that message leads to another one only if it starts exactly
  -- one index before, so that there is none after one at the previous index -1.
  pub send_loop-none :
      (fuel id upper : ℕ) (msg : AppendEntriesMessage) (w : Replica) (f : F)
      → start_of msg.prev_log_index ≤ 2 ^ 31
      → start_of msg.prev_log_index < fuel
      → (send_loop call fuel id (pos upper) msg w f ≢ ok none)
        × ((response : AppendEntriesResponse) (w' w'' : Replica) (msg' : AppendEntriesMessage)
            → handle_reply id (pos upper) msg response w' ≡ ok (retry msg' w'')
            → suc (start_of msg'.prev_log_index) ≡ start_of msg.prev_log_index)
  send_loop-none fuel id upper msg w f small enough = (
    λ e. loop-Always fuel id upper msg w f small enough none e refl,
    λ response w' w'' msg' run. reply-Lowers id upper msg response w' small (retry msg' w'') run,
  )

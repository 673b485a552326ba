-- ===== src/Raft/Replicate/Broadcast/Goroutine.antt =====
-- One goroutine of `LeaderSendAEs`.
use distributed_dns.Base.{
  ℕ, suc, ◌-◌, ◌≤◌, ◌<◌, ◌^◌, ◌≡◌, ◌⊎◌, inl, inr, sym, ap, ◌∙◌, Bool, Option, some, arith, ok,
  Returns, get_elem?,
}
use distributed_dns.Base.Int.{ℤ, pos, minus_one, add32, sub32, add32-pos, add32-minus_one}
use distributed_dns.Raft.Protos.{LogEntry, AppendEntriesMessage}
use distributed_dns.Raft.Node.{Replica}
use distributed_dns.Raft.Invariant.{start_of}
use distributed_dns.Raft.Quorum.{Tally, count_outcome}
use distributed_dns.Raft.Replicate.{fill_message, copy_entries, read_at_lem}
use distributed_dns.Raft.Replicate.Messages.{copy_loop_lem}
use distributed_dns.Raft.Replicate.Retry.{Leads, Reaches, Follows, before, Reaches-from}
use distributed_dns.Raft.Replicate.Converge.{
  Link, answer, with_both, Delivered, send_loop-Delivered,
}
use distributed_dns.Raft.Replicate.Broadcast.{goroutine}

-- The leader can send replica `id` its log up to `upper`.
pub record Ready (w : Replica) (upper id : ℕ) (f : Replica) : Type 0 where
  pub leads : Leads w id upper
  pub follows : Follows w f
  pub next : ℕ
  pub at : get_elem? w.node.next_index id ≡ some (pos next)
  pub small : next ≤ suc upper

add32-before :
    (prev : ℤ) (k : ℕ)
    → start_of prev ≡ k
    → k < 2 ^ 31
    → (prev ≡ minus_one) ⊎ ((q : ℕ) × (prev ≡ pos q))
    → add32 prev (pos 1) ≡ pos k
add32-before prev k start lt (inl e) =
    let none_yet : 0 ≡ k = sym (ap start_of e) ∙ start in rw e (add32-minus_one ∙ ap pos none_yet)
add32-before prev k start lt (inr (q, e)) =
    let after : suc q ≡ k = sym (ap start_of e) ∙ start in
    rw e (add32-pos q 1 (omega (arith, after, lt)) ∙ ap pos (omega (arith, after)))

-- The message that the goroutine fills.
message-Reaches :
    (w : Replica) (upper id : ℕ) (f : Replica) (base : AppendEntriesMessage)
    → (r : Ready w upper id f) → base.term ≡ w.node.current_term
    → Returns
        (fill_message w.node.log (sub32 (pos r.next) (pos 1)) (pos upper) base)
        λ msg. Reaches w upper msg × (start_of msg.prev_log_index ≡ r.next)
unfolding fill_message copy_entries
message-Reaches w upper id f base r same =
    let (prev, term, back, found, start, consistent) =
      before w.node.log r.next r.leads.fits (omega (arith, r.small, r.leads.within)) in
    let (es, run, (size, copied)) =
      copy_loop_lem w.node.log r.next (suc upper - r.next)
        (omega (arith, r.small, r.leads.within)) in
    let from : add32 prev (pos 1) ≡ pos r.next =
      add32-before prev r.next start (omega (arith, r.small, r.leads.within, r.leads.fits))
        (shape consistent) in
    let msg : AppendEntriesMessage = record base {
      prev_log_index = prev;
      prev_log_term = term;
      entries = es;
    } in
    (
      msg,
      simp (back, found, from, run),
      (Reaches-from msg r.next start same consistent copied size r.small, start),
    )
  where
    shape :
        {prev term : ℤ}
        → (prev ≡ minus_one)
          ⊎ ((q : ℕ) × (e : LogEntry) × (prev ≡ pos q)
              × (get_elem? w.node.log q ≡ some e)
              × (e.term ≡ term))
        → (prev ≡ minus_one) ⊎ ((q : ℕ) × (prev ≡ pos q))
    shape (inl e) = inl e
    shape (inr (q, e, same_prev, at, same_term)) = inr (q, same_prev)

-- What the goroutine leaves: the outcome is counted, and what `LeaderSendAE` delivered.
pub goroutine-Delivered :
    (fuel : ℕ) (w : Replica) (upper id : ℕ) (link : Link) (base : AppendEntriesMessage)
    (tally : Tally)
    → Ready w upper id link.0
    → base.term ≡ w.node.current_term
    → suc upper < fuel
    → (r : Option (Bool × Replica × Link)) × (d : Delivered w id upper link.1 r) × (goroutine answer
          fuel
          (pos upper)
          base
          id
          w
          tally
          link
        ≡ ok (
            some (
              with_both w d.nexts d.matches,
              count_outcome w.node.meta.n_replicas tally d.outcome,
              d.link_after,
            )))
unfolding goroutine
goroutine-Delivered fuel w upper id link base tally r same enough =
    let (msg, filled, (reaches, start)) = message-Reaches w upper id link.0 base r same in
    let (result, run, d) =
      send_loop-Delivered fuel id upper msg w link.0 link.1 r.leads reaches r.follows
        (omega (arith, start, r.small, enough)) in
    (result, d, simp (read_at_lem w.node.next_index id r.at, filled, run, d.result))

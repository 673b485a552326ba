-- ===== src/Raft/Replicate/Retry.antt =====
-- What a leader sends to a replica, and how a refusal leads to the next message.
use distributed_dns.Base.{
  ℕ, zero, suc, ◌+◌, ◌-◌, ◌≤◌, ◌<◌, ◌≡◌, ◌⊎◌, inl, inr, refl, ap, ◌∙◌, false, some, List, arith, ok,
  length, length-set, set, get_elem?, get_elem?-of_lt, get_elem?-set_other, ◌≢◌,
}
use distributed_dns.Base.Int.{ℤ, pos, minus_one, ◌≤ℤ◌, ltb_ℤ, sub32, sub32-suc, sub32-zero}
use distributed_dns.Raft.Protos.{LogEntry, AppendEntriesMessage, AppendEntriesResponse}
use distributed_dns.Raft.Node.{leader, Replica, Fits}
use distributed_dns.Raft.Invariant.{IsWellFormed, start_of, IsSane, Consistent}
use distributed_dns.Raft.Append.Safety.{Matching, IsFrom}
use distributed_dns.Raft.Replicate.{
  retry, base_message, copy_entries, handle_reply, handle_refusal, read_at, read_at_lem, write_at,
  write_at_lem, term_before,
}
use distributed_dns.Raft.Replicate.Messages.{copy_loop_lem, term_before_lem, term_before_first}

pub not-newer : (a : ℤ) → ltb_ℤ a a ≡ false
not-newer a = ground arith

-- A leader with an index for the replica `id` and an entry at `upper`.
pub record Leads (w : Replica) (id upper : ℕ) : Type 0 where
  pub leads : w.node.state ≡ leader
  pub fits : Fits w.node.log
  pub next : id < length w.node.next_index
  pub match : id < length w.node.match_index
  pub within : upper < length w.node.log

-- A message of the leader that reaches up to `upper`.
pub record Reaches (w : Replica) (upper : ℕ) (msg : AppendEntriesMessage) : Type 0 where
  pub term : msg.term ≡ w.node.current_term
  pub copied : IsFrom w.node.log msg
  pub upto : start_of msg.prev_log_index + length msg.entries ≡ suc upper

-- A replica that has not seen a newer term and whose log matches the leader's.
pub record Follows (w f : Replica) : Type 0 where
  pub valid : IsWellFormed f.node
  pub term : f.node.current_term ≤ℤ w.node.current_term
  pub matching : Matching f.node.log w.node.log

prev-from :
    (log : List LogEntry) (msg : AppendEntriesMessage)
    → Consistent log msg
    → minus_one ≤ℤ msg.prev_log_index
prev-from log msg (inl e) = rw e (omega arith)
prev-from log msg (inr (p, x, e, at, term)) = rw e (omega arith)

pub Reaches-IsSane :
    {w : Replica} {id upper : ℕ} {msg : AppendEntriesMessage}
    → Leads w id upper
    → Reaches w upper msg
    → IsSane msg
Reaches-IsSane {w} {msg = msg} l r = record {
  prev = prev-from w.node.log msg r.copied.prev;
  small = omega (arith, l.fits, l.within, r.upto);
}

-- The index before `p`, with its term.
pub before :
    (log : List LogEntry) (p : ℕ)
    → Fits log
    → p ≤ length log
    → (prev : ℤ) × (term : ℤ) × (sub32 (pos p) (pos 1) ≡ prev)
      × (term_before log prev ≡ ok term)
      × (start_of prev ≡ p)
      × ((prev ≡ minus_one)
          ⊎ ((q : ℕ) × (e : LogEntry) × (prev ≡ pos q)
              × (get_elem? log q ≡ some e)
              × (e.term ≡ term)))
before log zero fits h = (minus_one, minus_one, sub32-zero, term_before_first log, refl, inl refl)
before log (suc q) fits h =
    let (e, at) = get_elem?-of_lt log q (omega arith) in
    (
      pos q,
      e.term,
      sub32-suc q (omega arith),
      term_before_lem log q e at,
      refl,
      inr (q, e, refl, at, refl),
    )

abbrev pub with_next : Replica → List ℤ → Replica
with_next w nexts = record w { node = record w.node { next_index = nexts } }

-- A message from index `p` on that holds as many entries as there are up to `upper`.
pub Reaches-from :
    {w : Replica} {upper : ℕ} (msg : AppendEntriesMessage) (p : ℕ)
    → start_of msg.prev_log_index ≡ p
    → msg.term ≡ w.node.current_term
    → Consistent w.node.log msg
    → ((j : ℕ) (e : LogEntry)
        → get_elem? msg.entries j ≡ some e
        → get_elem? w.node.log (p + j) ≡ some e)
    → length msg.entries ≡ suc upper - p
    → p ≤ suc upper
    → Reaches w upper msg
Reaches-from {w} msg p start term c copied size below = record {
  term = term;
  copied = record {
    prev = c;
    copied = λ j e at. ap (λ i. get_elem? w.node.log (i + j)) start ∙ copied j e at;
  };
  upto = omega arith;
}

-- The steps of the branch for a refusal, put together.
module _ (w : Replica) (id : ℕ) (upper : ℤ) (msg : AppendEntriesMessage) where
  refusal_run :
      (response : AppendEntriesResponse) {next prev term : ℤ} {nexts : List ℤ} {es : List LogEntry}
      → response.success ≡ false
      → w.node.state ≡ leader
      → response.term ≡ w.node.current_term
      → read_at w.node.next_index id ≡ ok next
      → write_at w.node.next_index id (sub32 next (pos 1)) ≡ ok nexts
      → copy_entries w.node.log msg.prev_log_index upper ≡ ok es
      → sub32 msg.prev_log_index (pos 1) ≡ prev
      → term_before w.node.log prev ≡ ok term
      → handle_reply id upper msg response w
        ≡ ok (
            retry
              (record (base_message w.node) {
                prev_log_index = prev;
                prev_log_term = term;
                entries = es;
              })
              (with_next w nexts))
  unfolding handle_reply handle_refusal
  refusal_run response f l s r n c b t =
      simp (f, l, s, not-newer w.node.current_term, r, n, c, b, t)

-- After a refusal the leader goes one entry back, and its new message is as good as the one before.
pub refusal_retries :
    {w : Replica} {id upper : ℕ}
    → Leads w id upper
    → (msg : AppendEntriesMessage) (response : AppendEntriesResponse) → response.success ≡ false
    → response.term ≡ w.node.current_term
    → (p : ℕ) → msg.prev_log_index ≡ pos p
    → p ≤ upper
    → (nexts : List ℤ) × (msg' : AppendEntriesMessage) × (handle_reply id (pos upper) msg response w
        ≡ ok (retry msg' (with_next w nexts)))
      × (length nexts ≡ length w.node.next_index)
      × ((j : ℕ) → j ≢ id → get_elem? nexts j ≡ get_elem? w.node.next_index j)
      × (start_of msg'.prev_log_index ≡ p)
      × Reaches w upper msg'
unfolding copy_entries
refusal_retries {w} {id} {upper} l msg response no_success same p at below =
    let (next, here) = get_elem?-of_lt w.node.next_index id l.next in
    let (prev, term, back, found, start, consistent) =
      before w.node.log p l.fits (omega (arith, l.within)) in
    let (es, run, (size, copied)) =
      copy_loop_lem w.node.log p (suc upper - p) (omega (arith, l.within)) in
    let msg' : AppendEntriesMessage = record (base_message w.node) {
      prev_log_index = prev;
      prev_log_term = term;
      entries = es;
    } in
    (
      set w.node.next_index id (sub32 next (pos 1)),
      msg',
      refusal_run w id (pos upper) msg response no_success l.leads same
          (read_at_lem w.node.next_index id here)
          (write_at_lem w.node.next_index id (sub32 next (pos 1)) l.next) (rw at run) (rw at back)
          found,
      length-set w.node.next_index id (sub32 next (pos 1)),
      λ j ne. get_elem?-set_other w.node.next_index id j (sub32 next (pos 1)) l.next ne,
      start,
      Reaches-from msg' p start refl consistent copied size (omega (arith, below)),
    )

pub with_next-Leads :
    {w : Replica} {id upper : ℕ} (nexts : List ℤ)
    → Leads w id upper
    → length nexts ≡ length w.node.next_index
    → Leads (with_next w nexts) id upper
with_next-Leads nexts l e = record {
  leads = l.leads;
  fits = l.fits;
  next = rw e l.next;
  match = l.match;
  within = l.within;
}

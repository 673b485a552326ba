-- ===== src/Raft/Replicate/Messages.antt =====
-- The entries that a leader copies into a message.
use distributed_dns.Base.{
  ℕ, zero, suc, ◌+◌, ◌≤◌, ◌≡◌, refl, ap, ◌∙◌, some, List, [], ◌∷◌, arith, ok, Returns, length,
  get_elem?, get_elem?-of_lt,
}
use distributed_dns.Base.Int.{pos, minus_one}
use distributed_dns.Raft.Protos.{LogEntry}
use distributed_dns.Raft.Node.{entry_at-pos}
use distributed_dns.Raft.Replicate.{copy_loop, term_before}

-- The loop copies `n` entries from index `i` on.
pub copy_loop_lem :
    (log : List LogEntry) (i n : ℕ)
    → i + n ≤ length log
    → Returns (copy_loop log i n) λ es.
      (length es ≡ n)
      × ((j : ℕ) (e : LogEntry) → get_elem? es j ≡ some e → get_elem? log (i + j) ≡ some e)
unfolding copy_loop
copy_loop_lem log i zero h = ([], refl, (refl, λ j e at. ground arith))
copy_loop_lem log i (suc n) h =
    let (e, at) = get_elem?-of_lt log i (omega arith) in
    let (es, run, (size, copied)) = copy_loop_lem log (suc i) n (omega arith) in
    (e ∷ es, rw (entry_at-pos log i at, run), (ap suc size, copied' e at es copied))
  where
    copied' :
        (e : LogEntry)
        → get_elem? log i ≡ some e
        → (es : List LogEntry)
        → ((j : ℕ) (f : LogEntry) → get_elem? es j ≡ some f → get_elem? log (suc i + j) ≡ some f)
        → (j : ℕ) (f : LogEntry) → get_elem? (e ∷ es) j ≡ some f
        → get_elem? log (i + j) ≡ some f
    copied' e at es copied zero f eq = ap (get_elem? log) (omega arith) ∙ at ∙ eq
    copied' e at es copied (suc j) f eq = ap (get_elem? log) (omega arith) ∙ copied j f eq

-- The term of the entry before is found, and -1 stands before the first.
pub term_before_lem :
    (log : List LogEntry) (p : ℕ) (e : LogEntry)
    → get_elem? log p ≡ some e
    → term_before log (pos p) ≡ ok e.term
unfolding term_before
term_before_lem log p e at = ground (arith, entry_at-pos log p at)

pub term_before_first : (log : List LogEntry) → term_before log minus_one ≡ ok minus_one
unfolding term_before
term_before_first log = refl

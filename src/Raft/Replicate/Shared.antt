-- ===== src/Raft/Replicate/Shared.antt =====
-- raft/send_AEs.go: the goroutines of `LeaderSendAEs` in any order. They have one message, of which each
-- writes the previous index and its term under a read lock, which does not exclude the others, and the
-- entries after it released the lock. The leader's node stays as it is.
use distributed_dns.Base.{ℕ, ◌≡◌, ◌≢◌, refl, ap, List, [], ◌∷◌, put_at, arith, Run, ok, ◌>>=◌}
use distributed_dns.Base.Int.{ℤ, pos, add32, sub32}
use distributed_dns.Raft.Protos.{LogEntry, AppendEntriesMessage}
use distributed_dns.Raft.Node.{RaftNode}
use distributed_dns.Raft.Replicate.{fill_message, term_before, copy_entries, read_at}

-- A goroutine writes the previous index and its term and copies the entries, writes the entries to the
-- message, or sends the message.
pub data Act : Type 0 where
  locate : ℕ → Act
  fill : ℕ → Act
  send : ℕ → Act

-- The message, the entries that each goroutine copied, and what was sent to whom, the last first.
pub record Sending : Type 0 where
  pub msg : AppendEntriesMessage
  pub copied : ℕ → List LogEntry
  pub sent : List (ℕ × AppendEntriesMessage)

module _ (n : RaftNode) (upper : ℤ) where
  unfoldable pub perform : Act → Sending → Run Sending
  perform (locate id) s = do
    next ← read_at n.next_index id
    term ← term_before n.log (sub32 next (pos 1))
    es ← copy_entries n.log (add32 (sub32 next (pos 1)) (pos 1)) upper
    ok (record s {
      msg = record s.msg { prev_log_index = sub32 next (pos 1); prev_log_term = term };
      copied = put_at s.copied id es;
    })
  perform (fill id) s = ok (record s { msg = record s.msg { entries = s.copied id } })
  perform (send id) s = ok (record s { sent = (id, s.msg) ∷ s.sent })

  unfoldable pub perform_all : List Act → Sending → Run Sending
  unfolding perform
  perform_all [] s = ok s
  perform_all (act ∷ acts) s = do s' ← perform act s; perform_all acts s'

  -- What the goroutine for replica `id` finds in the leader's node.
  pub record Finds (id : ℕ) : Type 0 where
    pub next : ℤ
    pub term : ℤ
    pub entries : List LogEntry
    pub reads : read_at n.next_index id ≡ ok next
    pub before : term_before n.log (sub32 next (pos 1)) ≡ ok term
    pub copies : copy_entries n.log (add32 (sub32 next (pos 1)) (pos 1)) upper ≡ ok entries

  -- The message with the previous entry that one goroutine found, and the entries of another.
  abbrev pub mixed : {i j : ℕ} → Finds i → Finds j → AppendEntriesMessage → AppendEntriesMessage
  mixed f g base = record base {
    prev_log_index = sub32 f.next (pos 1);
    prev_log_term = f.term;
    entries = g.entries;
  }

  located : {i : ℕ} → Finds i → Sending → Sending
  located {i} f s = record s {
    msg = record s.msg { prev_log_index = sub32 f.next (pos 1); prev_log_term = f.term };
    copied = put_at s.copied i f.entries;
  }

  locate_run : {i : ℕ} (f : Finds i) (s : Sending) → perform (locate i) s ≡ ok (located f s)
  unfolding perform located
  locate_run f s = simp (f.reads, f.before, f.copies)

  fill_run :
      {i : ℕ} (f : Finds i) (base : AppendEntriesMessage)
      → fill_message n.log (sub32 f.next (pos 1)) upper base ≡ ok (mixed f f base)
  unfolding fill_message
  fill_run f base = simp (f.before, f.copies)

  with_sent : (i : ℕ) (es : List LogEntry) (s : Sending) → Sending
  with_sent i es s = record s {
    msg = record s.msg { entries = es };
    sent = (i, record s.msg { entries = es }) ∷ s.sent;
  }

  fill_send :
      (i : ℕ) (s : Sending) → perform_all (fill i ∷ send i ∷ []) s ≡ ok (with_sent i (s.copied i) s)
  unfolding perform_all with_sent
  fill_send i s = refl

  -- A goroutine of `LeaderSendAEs` that no other one interrupts sends its replica the message that
  -- its own index and its own entries make. One that is interrupted by the start of another
  -- goroutine, between its two writes of the message that they share, sends the previous index and
  -- term of the other one with its own entries.
  pub perform_all-mixed :
      {i j : ℕ} (f : Finds i) (g : Finds j) (s : Sending)
      → i ≢ j
      → ((s' : Sending) × (perform_all (locate i ∷ fill i ∷ send i ∷ []) s ≡ ok s')
          × (s'.sent ≡ (i, mixed f f s.msg) ∷ s.sent)
          × (fill_message n.log (sub32 f.next (pos 1)) upper s.msg ≡ ok (mixed f f s.msg)))
        × ((s' : Sending) × (perform_all (locate i ∷ locate j ∷ fill i ∷ send i ∷ []) s ≡ ok s')
            × (s'.sent ≡ (i, mixed g f s.msg) ∷ s.sent))
  unfolding perform_all located with_sent
  perform_all-mixed {i} {j} f g s other =
      let once = located f s in
      let twice = located g once in
      let alone : once.copied i ≡ f.entries = ground arith in
      let still : twice.copied i ≡ f.entries = ground arith in
      (
        (
          with_sent i (once.copied i) once,
          simp (locate_run f s, fill_send i once),
          ap (λ es. (i, record once.msg { entries = es }) ∷ s.sent) alone,
          fill_run f s.msg,
        ),
        (
          with_sent i (twice.copied i) twice,
          simp (locate_run f s, locate_run g once, fill_send i twice),
          ap (λ es. (i, record twice.msg { entries = es }) ∷ s.sent) still,
        ),
      )

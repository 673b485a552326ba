-- ===== src/Raft/Cluster/Handlers.antt =====
-- The ballots that the two RPCs, their replies and an election leave.
use distributed_dns.Base.{
  ℕ, ◌≡◌, ◌⊎◌, inl, inr, refl, sym, arith, true, false, Bool-cases, List, Run, ok, ◌>>=◌,
  if◌then◌else◌, ◌&&◌,
}
use distributed_dns.Base.Int.{ℤ, pos, minus_one, ltb_ℤ, add32}
use distributed_dns.Raft.Protos.{
  LogEntry, AppendEntriesMessage, AppendEntriesResponse, RequestVoteMessage, RequestVoteResponse,
}
use distributed_dns.Raft.Node.{Replica, persist}
use distributed_dns.Raft.Persist.{store_node-Keeps}
use distributed_dns.Raft.Append.{
  prev_matches, answer_stale, is_nil, scan, accept_leader, loop_start, merge, commit_entries,
  commit_from, append_matched, append_current, append_entries,
}
use distributed_dns.Raft.Vote.{latest, catch_up, grants, answer, request_vote}
use distributed_dns.Raft.Cluster.Ballot.{ballot}
use distributed_dns.Raft.Cluster.Effects.{
  IsReplica, Rests, Proceeds, Rests-Proceeds, Proceeds-Rests, Rests-trans, Rests-of, bind_ok,
  ok_injective, ok_first, to_follower-Proceeds, accept_leader-Proceeds, persist-IsVoteSaved,
}

persist-Rests : (w : Replica) → Rests w (persist w)
persist-Rests w = Rests-of w (persist w) refl refl refl (λ _. persist-IsVoteSaved w)

commit_entries-Rests :
    (msg : AppendEntriesMessage) (w w' : Replica) → commit_entries msg w ≡ ok w' → Rests w w'
unfolding commit_entries
commit_entries-Rests msg w w' run =
    elim (Bool-cases (ltb_ℤ w.node.commit_index msg.leader_commit)) [
      | inl behind ↦
          let (i, _, done) =
            bind_ok (loop_start (add32 w.node.commit_index (pos 1))) (λ i. ok (commit_from msg i w))
              (rw behind at run) in
          let e : commit_from msg i w ≡ w' = ok_injective done in
          rw (← e) (Rests-of w (commit_from msg i w) refl refl refl (λ s. s))
      | inr level ↦
          let e : w ≡ w' = ok_injective (rw level at run) in
          rw (← e) (Rests-of w w refl refl refl (λ s. s))
    ]

append_matched-Rests :
    (msg : AppendEntriesMessage) (w : Replica) (r : Replica × AppendEntriesResponse)
    → append_matched msg w ≡ ok r
    → Rests w r.0
unfolding append_matched
append_matched-Rests msg w r run =
    let answer : Replica → Run (Replica × AppendEntriesResponse) =
      λ w'. ok (persist w', record { term = msg.term; success = true }) in
    let with_log : List LogEntry → Replica = λ l. record w { node = record w.node { log = l } } in
    let (i, _, next) =
      bind_ok (loop_start (add32 msg.prev_log_index (pos 1)))
        (λ i. do
          log' ← merge w.node.log i msg.entries
          w' ← commit_entries msg (with_log log')
          answer w')
        run in
    let (log', _, next') =
      bind_ok (merge w.node.log i msg.entries)
        (λ l. do w' ← commit_entries msg (with_log l); answer w') next in
    let (w', committed, done) = bind_ok (commit_entries msg (with_log log')) answer next' in
    let e : persist w' ≡ r.0 = ok_first done in
    rw (← e) (
      Rests-trans (Rests-of w (with_log log') refl refl refl (λ s. s))
        (Rests-trans (commit_entries-Rests msg (with_log log') w' committed) (persist-Rests w')))

append_current-Rests :
    (msg : AppendEntriesMessage) (w : Replica) (r : Replica × AppendEntriesResponse)
    → append_current msg w ≡ ok r
    → Rests w r.0
unfolding append_current append_matched
append_current-Rests msg w r run =
    let (b, _, next) =
      bind_ok (prev_matches w.node.log msg)
        (λ b.
          if b then append_matched msg w else ok (w, record { term = msg.term; success = false }))
        run in
    elim (Bool-cases b) [
      | inl matches ↦ append_matched-Rests msg w r (rw matches at next)
      | inr differs ↦
          let e : w ≡ r.0 = ok_first (rw differs at next) in
          rw (← e) (Rests-of w w refl refl refl (λ s. s))
    ]

answer_stale-same :
    (msg : AppendEntriesMessage) (w : Replica) (r : Replica × AppendEntriesResponse)
    → answer_stale msg w ≡ ok r
    → r.0 ≡ w
unfolding answer_stale
answer_stale-same msg w r run =
    let (b, _, next) =
      bind_ok (prev_matches w.node.log msg)
        (λ b. do
          i ← if b then loop_start (add32 msg.prev_log_index (pos 1)) else ok 0
          ok (
            w,
            record {
              term = w.node.current_term;
              success = b && is_nil (scan w.node.log i msg.entries).1;
            },
          ))
        run in
    let (i, _, done) =
      bind_ok (if b then loop_start (add32 msg.prev_log_index (pos 1)) else ok 0)
        (λ i. ok (
          w,
          record {
            term = w.node.current_term;
            success = b && is_nil (scan w.node.log i msg.entries).1;
          },
        ))
        next in
    sym (ok_first done)

pub append_entries-Proceeds :
    (i : ℕ) (msg : AppendEntriesMessage) (w : Replica) (r : Replica × AppendEntriesResponse)
    → append_entries msg w ≡ ok r
    → Proceeds i w r.0
unfolding append_entries
append_entries-Proceeds i msg w r run = elim (Bool-cases (ltb_ℤ msg.term w.node.current_term)) [
  | inl old ↦
      rw (answer_stale-same msg w r (rw old at run))
        (Rests-Proceeds i (Rests-of w w refl refl refl (λ s. s)))
  | inr new ↦
      Proceeds-Rests i (accept_leader-Proceeds i msg w new)
        (append_current-Rests msg (accept_leader msg w) r (rw new at run))
]

-- The candidate of a request whose vote is given is in the ballot then.
pub record Votes (msg : RequestVoteMessage) (w : Replica) (r : Replica × RequestVoteResponse)
    : Type 0 where
  pub reply : r.1.term ≡ msg.term
  pub keeps : (n i : ℕ) → IsReplica n i w → IsReplica n i r.0
  pub ballots :
      ((r.1.vote_granted ≡ false) × (ballot r.0.node ≡ ballot (catch_up msg.term w).node))
      ⊎ ((ballot r.0.node ≡ record (ballot (catch_up msg.term w).node) { voted = msg.candidate_id })
          × (((catch_up msg.term w).node.voted_for ≡ msg.candidate_id)
              ⊎ (((catch_up msg.term w).node.voted_for ≡ minus_one)
                  × ((catch_up msg.term w).node.current_term ≡ msg.term))))

pub catch_up-Proceeds : (i : ℕ) (t : ℤ) (w : Replica) → Proceeds i w (catch_up t w)
unfolding catch_up
catch_up-Proceeds i t w = elim (Bool-cases (ltb_ℤ w.node.current_term t)) [
  | inl newer ↦ rw newer (to_follower-Proceeds i t w (ground arith))
  | inr old ↦ rw old (Rests-Proceeds i (Rests-of w w refl refl refl (λ s. s)))
]

answer-Votes :
    (msg : RequestVoteMessage) (last : ℤ × ℤ) (w : Replica)
    → Votes msg w (answer msg last (catch_up msg.term w))
unfolding answer
answer-Votes msg last w =
    let v : Replica = catch_up msg.term w in
    elim (Bool-cases (grants msg last v.node)) [
      | inl granted ↦ rw granted (record {
        reply = refl;
        keeps = λ n i h.
            let k = (catch_up-Proceeds i msg.term w).keeps n i h in
            record {
              size = k.size;
              number = k.number;
              saved = inr (_, _, refl, store_node-Keeps _ _, refl, refl);
            };
        ballots = inr (refl, ground arith);
      })
      | inr rejected ↦ rw rejected (record {
        reply = refl;
        keeps = λ n i h. (catch_up-Proceeds i msg.term w).keeps n i h;
        ballots = inl (refl, refl);
      })
    ]

pub request_vote-Votes :
    (msg : RequestVoteMessage) (w : Replica) (r : Replica × RequestVoteResponse)
    → request_vote msg w ≡ ok r
    → Votes msg w r
unfolding request_vote
request_vote-Votes msg w r run =
    let (last, _, done) =
      bind_ok (latest w.node.log) (λ last. ok (answer msg last (catch_up msg.term w))) run in
    let e : answer msg last (catch_up msg.term w) ≡ r = ok_injective done in
    rw (← e) (answer-Votes msg last w)

-- ===== src/Raft/Vote/Durable.antt =====
-- The vote and the file: `RequestVote`, and a restart.
use distributed_dns.Base.{
  ℕ, ◌≡◌, ◌≢◌, ◌↔◌, refl, ap, ◌∙◌, true, Bool-cases, inl, inr, Run, ok, ◌>>=◌, Returns, some, [],
  StringMap, Gob,
}
use distributed_dns.Base.Int.{ℤ, minus_one, ◌≤ℤ◌, ltb_ℤ}
use distributed_dns.Raft.Protos.{RequestVoteMessage, RequestVoteResponse}
use distributed_dns.Raft.Node.{follower, RaftNode, Replica, Value, Fits}
use distributed_dns.Raft.Log.{last_index, last_term}
use distributed_dns.Raft.Persist.{store_node-Keeps, persist-IsDurable}
use distributed_dns.Raft.Invariant.{Keeps, IsDurable}
use distributed_dns.Raft.States.{to_follower}
use distributed_dns.Raft.Vote.{request_vote, grants, answer, catch_up}
use distributed_dns.Raft.Vote.Laws.{request_vote_run, vote_once}
use distributed_dns.Raft.Storage.{initialize_node, initialize_node-Keeps}

to_follower-IsDurable : (term : ℤ) (w : Replica) → IsDurable (to_follower term w)
unfolding to_follower
to_follower-IsDurable term w =
    let changed : RaftNode = record w.node {
      state = follower;
      current_term = term;
      voted_for = minus_one;
    } in
    (_, refl, store_node-Keeps changed w.storage)

catch_up-IsDurable : (term : ℤ) (w : Replica) → IsDurable w → IsDurable (catch_up term w)
unfolding catch_up
catch_up-IsDurable term w d = elim (Bool-cases (ltb_ℤ w.node.current_term term)) [
  | inl newer ↦ rw newer (to_follower-IsDurable term w)
  | inr old ↦ rw old d
]

answer-IsDurable :
    (msg : RequestVoteMessage) (last : ℤ × ℤ) (w : Replica)
    → IsDurable w
    → IsDurable (answer msg last w).0
unfolding answer
answer-IsDurable msg last w d = elim (Bool-cases (grants msg last w.node)) [
  | inl granted ↦
      rw granted
        (persist-IsDurable (record w { node = record w.node { voted_for = msg.candidate_id } }))
  | inr rejected ↦ rw rejected d
]

-- `RequestVote` at a replica whose file holds the node, with a log that fits, leaves a file that
-- holds the node: the vote is in it before it is told.
pub request_vote-IsDurable :
    (msg : RequestVoteMessage) (w : Replica)
    → Fits w.node.log
    → IsDurable w
    → Returns (request_vote msg w) λ r. IsDurable r.0
request_vote-IsDurable msg w fits d =
    let last : ℤ × ℤ = (last_index w.node.log, last_term w.node.log) in
    (
      answer msg last (catch_up msg.term w),
      request_vote_run msg w fits,
      answer-IsDurable msg last (catch_up msg.term w) (catch_up-IsDurable msg.term w d),
    )

module _ (gob : Gob Value) where
  open gob use {encode}

  -- The process starts again on a file of this map.
  unfoldable pub restart : ℕ → ℕ → StringMap Value → Run Replica
  restart n_replica rid saved = do
    (n, m) ← initialize_node gob n_replica rid (some (encode saved))
    ok (record { node = n; storage = m; saved = some saved; effects = [] })

  unfoldable pub ask_restarted :
      ℕ → ℕ → StringMap Value → RequestVoteMessage → Run (Replica × RequestVoteResponse)
  unfolding restart
  ask_restarted n_replica rid saved msg = do w ← restart n_replica rid saved; request_vote msg w

  -- A replica that starts again from a file that holds the fields of a node which voted (its vote
  -- is not -1), asked by a request of no newer term than that node's, keeps the node's term and
  -- vote, and grants exactly if the vote is the candidate's. The node's log fits.
  pub restarted-vote_once :
      (n_replica rid : ℕ) (saved : StringMap Value) (n : RaftNode) (msg : RequestVoteMessage)
      → Keeps saved n
      → Fits n.log
      → msg.term ≤ℤ n.current_term
      → n.voted_for ≢ minus_one
      → Returns (ask_restarted n_replica rid saved msg) λ r.
        (r.0.node.current_term ≡ n.current_term)
        × (r.0.node.voted_for ≡ n.voted_for)
        × ((r.1.vote_granted ≡ true) ↔ (n.voted_for ≡ msg.candidate_id))
  unfolding ask_restarted
  restarted-vote_once n_replica rid saved n msg k fits old cast =
      let ((n', m), run, same) = initialize_node-Keeps gob n_replica rid saved n k in
      let w : Replica = record { node = n'; storage = m; saved = some saved; effects = [] } in
      let term : n'.current_term ≡ n.current_term = ap (λ x. x.current_term) same in
      let voted : n'.voted_for ≡ n.voted_for = ap (λ x. x.voted_for) same in
      let log : n'.log ≡ n.log = ap (λ x. x.log) same in
      let (r, asked, (kept, granted)) =
        vote_once msg w (rw log fits) (rw term old) (rw voted cast) in
      (
        r,
        rw run asked,
        (
          ap (λ x. x.current_term) kept ∙ term,
          ap (λ x. x.voted_for) kept ∙ voted,
          rw voted at granted,
        ),
      )

-- ===== src/Raft/Vote/Laws.antt =====
-- What `RequestVote` does to a vote.
use distributed_dns.Base.{
  suc, ◌≡◌, ◌≢◌, ◌↔◌, refl, true, some, List, [], ◌∷◌, arith, ok, Returns, length, get_elem?,
  if◌then◌else◌,
}
use distributed_dns.Base.Int.{ℤ, minus_one, ◌≤ℤ◌, ◌<ℤ◌, int32-of_lt, sub32-suc}
use distributed_dns.Raft.Protos.{LogEntry, RequestVoteMessage}
use distributed_dns.Raft.Node.{follower, Replica, entry_at-pos, Fits}
use distributed_dns.Raft.Log.{last_term_from, last_term, last_index, AtLeast}
use distributed_dns.Raft.Vote.{latest, up_to_date, catch_up, answer, request_vote}

last_entry :
    (t : ℤ) (e : LogEntry) (log : List LogEntry)
    → (x : LogEntry) × (get_elem? (e ∷ log) (length log) ≡ some x)
      × (x.term ≡ last_term_from t (e ∷ log))
unfolding last_term_from
last_entry t e [] = (e, refl, refl)
last_entry t e (f ∷ log) = last_entry e.term f log

-- The two variables `latestLogIndex` and `latestLogTerm` describe the end of the log.
pub latest_lem : (log : List LogEntry) → Fits log → latest log ≡ ok (last_index log, last_term log)
unfolding latest last_index last_term
latest_lem [] h = rw (int32-of_lt 0 (omega arith))
latest_lem (e ∷ log) h =
    let (x, at, term) = last_entry minus_one e log in
    rw (int32-of_lt (suc (length log)) (omega arith), sub32-suc (length log) (omega arith))
      (ground (arith, entry_at-pos (e ∷ log) (length log) at))

-- The code's comparison is the comparison of logs.
pub up_to_date_iff :
    (msg : RequestVoteMessage) (log : List LogEntry)
    → (up_to_date msg (last_index log, last_term log) ≡ true) ↔ AtLeast msg log
unfolding up_to_date
up_to_date_iff msg log = (λ h. ground arith, λ h. ground arith)

-- The run of the handler, with the end of the log computed.
pub request_vote_run :
    (msg : RequestVoteMessage) (w : Replica)
    → Fits w.node.log
    → request_vote msg w
      ≡ ok (answer msg (last_index w.node.log, last_term w.node.log) (catch_up msg.term w))
unfolding request_vote
request_vote_run msg w h = rw (latest_lem w.node.log h)

module _ (msg : RequestVoteMessage) (w : Replica) (fits : Fits w.node.log) where
  -- A replica that has voted in its term (its vote is not -1), asked by a request of no newer term,
  -- changes nothing of its node, and grants exactly if its vote is the candidate's. The log's
  -- length fits an `int32`.
  pub vote_once :
      msg.term ≤ℤ w.node.current_term
      → w.node.voted_for ≢ minus_one
      → Returns (request_vote msg w) λ r.
        (r.0.node ≡ w.node) × ((r.1.vote_granted ≡ true) ↔ (w.node.voted_for ≡ msg.candidate_id))
  unfolding answer catch_up
  vote_once old cast = (
    answer msg (last_index w.node.log, last_term w.node.log) (catch_up msg.term w),
    request_vote_run msg w fits,
    (ground arith, (λ h. ground arith, λ h. ground arith)),
  )

  -- A request of a newer term, of a candidate whose number is not -1, makes a follower of that
  -- term; it is granted exactly if the candidate's log is at least as up-to-date, and the vote is
  -- the candidate's then and -1 otherwise. The log's length fits an `int32`.
  pub vote_newer :
      w.node.current_term <ℤ msg.term
      → msg.candidate_id ≢ minus_one
      → Returns (request_vote msg w) λ r.
        ((r.1.vote_granted ≡ true) ↔ AtLeast msg w.node.log)
        × (r.0.node ≡ record w.node {
          state = follower;
          current_term = msg.term;
          voted_for = if r.1.vote_granted then msg.candidate_id else minus_one;
        })
  unfolding answer catch_up
  vote_newer newer named = (
    answer msg (last_index w.node.log, last_term w.node.log) (catch_up msg.term w),
    request_vote_run msg w fits,
    (
      (
        λ h. (up_to_date_iff msg w.node.log).0 (ground arith),
        λ h. ground (arith, (up_to_date_iff msg w.node.log).1 h),
      ),
      ground arith,
    ),
  )

  -- A request of the replica's term that finds no vote, of a candidate whose number is not -1, is
  -- granted exactly if the candidate's log is at least as up-to-date; beside the vote the node
  -- stays as it is. The log's length fits an `int32`.
  pub vote_first :
      msg.term ≡ w.node.current_term
      → w.node.voted_for ≡ minus_one
      → msg.candidate_id ≢ minus_one
      → Returns (request_vote msg w) λ r.
        ((r.1.vote_granted ≡ true) ↔ AtLeast msg w.node.log)
        × (r.0.node ≡ record w.node {
          voted_for = if r.1.vote_granted then msg.candidate_id else minus_one;
        })
  unfolding answer catch_up
  vote_first same free named = (
    answer msg (last_index w.node.log, last_term w.node.log) (catch_up msg.term w),
    request_vote_run msg w fits,
    (
      (
        λ h. (up_to_date_iff msg w.node.log).0 (ground arith),
        λ h. ground (arith, (up_to_date_iff msg w.node.log).1 h),
      ),
      ground arith,
    ),
  )

  -- The reply carries the term of the request, whatever the node's own term is.
  pub reply_term : Returns (request_vote msg w) λ r. r.1.term ≡ msg.term
  unfolding answer catch_up
  reply_term = (
    answer msg (last_index w.node.log, last_term w.node.log) (catch_up msg.term w),
    request_vote_run msg w fits,
    ground arith,
  )

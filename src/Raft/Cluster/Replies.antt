-- ===== src/Raft/Cluster/Replies.antt =====
-- The step of a reply: a vote is counted or not, and may make a leader.
use distributed_dns.Base.{
  ℕ, ◌+◌, ◌*◌, ◌<◌, ◌≡◌, inl, inr, refl, sym, ◌∙◌, arith, true, false, put_at, ltb, sum,
}
use distributed_dns.Base.Int.{ℤ}
use distributed_dns.Raft.Protos.{RequestVoteResponse}
use distributed_dns.Raft.Node.{candidate, leader, Replica}
use distributed_dns.Raft.Election.{vote_reply}
use distributed_dns.Raft.Cluster.Ballot.{ballot, Moves, stay, replied, ended}
use distributed_dns.Raft.Cluster.Invariant.{Calls, Inv, weight, Change, Moves-Change}
use distributed_dns.Raft.Cluster.Calls.{put_call, put_count, Goes-Inv}
use distributed_dns.Raft.Cluster.Elections.{Counts, vote_reply-Counts}
use distributed_dns.Raft.Cluster.System.{Cluster}
use distributed_dns.Raft.Cluster.Changes.{ballots, IsSafe, put-Inv, put-IsReplica, not_self}

module _ {n : ℕ} {s : Cluster} (safe : IsSafe n s) where
  -- A reply that is not counted.
  unheard :
      (i : ℕ) (t : ℤ) (j : ℕ) (r : RequestVoteResponse) (w : Replica)
      → j < n
      → s.calls i t j ≡ replied r
      → Moves i (ballot (s.nodes i).node) (ballot w.node)
      → Inv n
          (ballots (put_at s.nodes i w))
          (put_call s.calls i t j (ended false))
          (put_count s.received i t (s.received i t))
  unheard i t j r w lt e mv =
      let inv =
        put-Inv s.nodes safe.election i w
          (Moves-Change safe.election i (ballot (s.nodes i).node) (ballot w.node) refl mv) in
      let sound = rw e at (inv.sound i t j) in
      Goes-Inv inv i t j (s.received i t) (ended false) (record {
        not_self = not_self inv i t j (λ q. ground arith);
        within = lt;
        fine = sound.1;
        live = λ l. absurd l;
        votes = rw e (omega arith);
        more = rw e (omega arith);
      })

  -- A vote that is counted.
  counted :
      (i : ℕ) (t : ℤ) (j : ℕ) (r : RequestVoteResponse)
      → j < n
      → s.calls i t j ≡ replied r
      → r.vote_granted ≡ true
      → (s.nodes i).node.current_term ≡ t
      → Inv n
          (ballots s.nodes)
          (put_call s.calls i t j (ended true))
          (put_count s.received i t (s.received i t + 1))
  counted i t j r lt e granted now =
      let sound = rw e at (safe.election.sound i t j) in
      Goes-Inv safe.election i t j (s.received i t + 1) (ended true) (record {
        not_self = not_self safe.election i t j (λ q. ground arith);
        within = lt;
        fine = sound.1;
        live = λ _. inl (rw e (granted, now));
        votes = rw e (omega arith);
        more = rw e (omega arith);
      })

  -- The vote that makes a candidate the leader.
  won-Change :
      (i : ℕ) (t : ℤ) (calls : Calls)
      (inv : Inv n (ballots s.nodes) calls (put_count s.received i t (s.received i t + 1)))
      → (s.nodes i).node.state ≡ candidate
      → (s.nodes i).node.current_term ≡ t
      → n < 2 * (s.received i t + 1)
      → Change inv i (record (ballot (s.nodes i).node) { state = leader })
  won-Change i t calls inv standing now enough =
      let here : put_count s.received i t (s.received i t + 1) i t ≡ s.received i t + 1 =
        ground arith in
      let seen : n < 2 * (1 + sum n (λ m. weight (calls i t m))) =
        omega (arith, here, inv.counted i t) in
      record {
        later = omega arith;
        stands' = λ q. ground arith;
        leads' = λ _. (inv.stands i standing, rw now seen);
        voted' = λ k q. inl (inv.voters k i q);
        kept = λ u k ne c. c;
      }

  heard_as :
      (i : ℕ) (t : ℤ) (j : ℕ) (r : RequestVoteResponse)
      → j < n
      → s.calls i t j ≡ replied r
      → (w : Replica) (v : ℕ) → Counts i r (s.received i t) (s.nodes i) (w, v)
      → IsSafe n (record {
        nodes = put_at s.nodes i w;
        received = put_count s.received i t v;
        calls = put_call s.calls i t j (ended (ltb (s.received i t) v));
      })
  heard_as i t j r lt e w v c = record {
    election = elim c.ballots [
      | inl (same, mv) ↦
          let test : ltb (s.received i t) v ≡ false = ground arith in
          rw (test, same) (unheard i t j r w lt e mv)
      | inr (more, granted, at, standing, end) ↦
          let test : ltb (s.received i t) v ≡ true = ground arith in
          let now : (s.nodes i).node.current_term ≡ t =
            sym at ∙ (rw e at (safe.election.sound i t j)).0 in
          let inv = counted i t j r lt e granted now in
          rw (test, more)
            (put-Inv s.nodes inv i w (elim end [
              | inl same ↦
                  rw same (
                    Moves-Change inv i (ballot (s.nodes i).node) (ballot (s.nodes i).node) refl
                      stay)
              | inr (leads, enough) ↦ rw leads (
                  won-Change i t (put_call s.calls i t j (ended true)) inv standing now
                    (rw (safe.replicas i).size at enough))
            ]))
    ];
    replicas = put-IsReplica s.nodes safe.replicas i w (c.keeps n i (safe.replicas i));
  }

  pub heard :
      (i : ℕ) (t : ℤ) (j : ℕ) (r : RequestVoteResponse)
      → j < n
      → s.calls i t j ≡ replied r
      → IsSafe n (record {
        nodes = put_at s.nodes i (vote_reply r (s.received i t) (s.nodes i)).0;
        received = put_count s.received i t (vote_reply r (s.received i t) (s.nodes i)).1;
        calls =
            put_call s.calls i t j
              (ended (ltb (s.received i t) (vote_reply r (s.received i t) (s.nodes i)).1));
      })
  heard i t j r lt e =
      heard_as i t j r lt e (vote_reply r (s.received i t) (s.nodes i)).0
        (vote_reply r (s.received i t) (s.nodes i)).1
        (vote_reply-Counts i r (s.received i t) (s.nodes i))

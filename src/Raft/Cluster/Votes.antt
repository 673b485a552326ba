-- ===== src/Raft/Cluster/Votes.antt =====
-- The steps of a vote: a replica stands, asks, gives its vote, and counts one.
use mathlib.Core.Path.{subst}
use distributed_dns.Base.{
  ℕ, ◌<◌, ◌≡◌, ◌≢◌, ◌⊎◌, inl, inr, refl, sym, ap, ◌∙◌, arith, false, put_at, ok,
}
use distributed_dns.Base.Int.{ℤ, pos, minus_one, ◌<ℤ◌, ◌≤ℤ◌}
use distributed_dns.Raft.Protos.{RequestVoteMessage, RequestVoteResponse}
use distributed_dns.Raft.Node.{Replica}
use distributed_dns.Raft.States.{to_candidate}
use distributed_dns.Raft.Vote.{latest, catch_up, request_vote}
use distributed_dns.Raft.Election.{vote_message}
use distributed_dns.Raft.Cluster.Ballot.{ballot, Moves, spawned, asking, replied}
use distributed_dns.Raft.Cluster.Invariant.{Inv, Change, Moves-Change, cast-Change}
use distributed_dns.Raft.Cluster.Calls.{put_call, put_count, spawn, spawn-Inv}
use distributed_dns.Raft.Cluster.Effects.{Proceeds, bind_ok, ok_injective}
use distributed_dns.Raft.Cluster.Handlers.{request_vote-Votes, catch_up-Proceeds}
use distributed_dns.Raft.Cluster.Elections.{to_candidate-ballot, to_candidate-Proceeds}
use distributed_dns.Raft.Cluster.System.{Cluster, has_stub}
use distributed_dns.Raft.Cluster.Changes.{
  ballots, IsSafe, put-Inv, put-IsReplica, put_at_twice, call-Inv, not_self, catch_up-le, caught,
}

module _ {n : ℕ} {s : Cluster} (safe : IsSafe n s) where
  pub moved :
      (i : ℕ) (w : Replica)
      → Proceeds i (s.nodes i) w
      → IsSafe n (record s { nodes = put_at s.nodes i w })
  moved i w p = record {
    election =
        put-Inv s.nodes safe.election i w
          (Moves-Change safe.election i (ballot (s.nodes i).node) (ballot w.node) refl p.moves);
    replicas = put-IsReplica s.nodes safe.replicas i w (p.keeps n i (safe.replicas i));
  }

  pub stood :
      (i : ℕ)
      → (s.nodes i).node.current_term <ℤ (to_candidate (s.nodes i)).node.current_term
      → IsSafe n (record {
        nodes = put_at s.nodes i (to_candidate (s.nodes i));
        received = put_count s.received i (to_candidate (s.nodes i)).node.current_term 1;
        calls = spawn (has_stub (s.nodes i)) i (to_candidate (s.nodes i)).node.current_term s.calls;
      })
  stood i lt =
      let w : Replica = to_candidate (s.nodes i) in
      let same = to_candidate-ballot (s.nodes i) in
      let p : Proceeds i (s.nodes i) w =
        to_candidate-Proceeds n i (s.nodes i) (safe.replicas i)
          (rw (ap (λ b. b.term) same) at lt) in
      let own : (put_at s.nodes i w) i ≡ w = ground arith in
      record {
        election =
            spawn-Inv (moved i w p).election (has_stub (s.nodes i)) i w.node.current_term
              (rw own (ap (λ b. b.state) same)) (rw own (omega arith));
        replicas = (moved i w p).replicas;
      }

  pub asked :
      (i : ℕ) (t : ℤ) (j : ℕ) (msg : RequestVoteMessage)
      → j < n
      → s.calls i t j ≡ spawned
      → (s.nodes i).node.current_term ≡ t
      → vote_message (s.nodes i).node ≡ ok msg
      → IsSafe n (record s { calls = put_call s.calls i t j (asking msg) })
  unfolding vote_message
  asked i t j msg lt e now run =
      let (last, _, done) =
        bind_ok (latest (s.nodes i).node.log)
          (λ last. ok (record {
            term = (s.nodes i).node.current_term;
            candidate_id = pos (s.nodes i).node.meta.replica_id;
            last_log_index = last.0;
            last_log_term = last.1;
          }))
          run in
      record {
        election = call-Inv safe.election i t j (asking msg) (record {
          not_self = not_self safe.election i t j (λ q. ground arith);
          within = lt;
          fine =
              rw (← ok_injective done) (now, ap pos (safe.replicas i).number, rw now (omega arith));
          live = λ l. absurd l;
          votes = rw e (omega arith);
          more = rw e (omega arith);
        });
        replicas = safe.replicas;
      }

  -- A replica after the test of the term in `RequestVote`.
  caught_up :
      (j : ℕ) (term : ℤ)
      → Inv n (ballots (put_at s.nodes j (catch_up term (s.nodes j)))) s.calls s.received
  caught_up j term =
      (moved j (catch_up term (s.nodes j)) (catch_up-Proceeds j term (s.nodes j))).election

  rejected_vote :
      (i : ℕ) (t : ℤ) (j : ℕ) (msg : RequestVoteMessage) (r : Replica × RequestVoteResponse)
      → j < n
      → s.calls i t j ≡ asking msg
      → r.1.term ≡ msg.term
      → r.1.vote_granted ≡ false
      → ballot r.0.node ≡ ballot (catch_up msg.term (s.nodes j)).node
      → Inv n (ballots (put_at s.nodes j r.0)) (put_call s.calls i t j (replied r.1)) s.received
  rejected_vote i t j msg r lt e told rejected same =
      let mv : Moves j (ballot (s.nodes j).node) (ballot r.0.node) =
        rw same (catch_up-Proceeds j msg.term (s.nodes j)).moves in
      let inv =
        put-Inv s.nodes safe.election j r.0
          (Moves-Change safe.election j (ballot (s.nodes j).node) (ballot r.0.node) refl mv) in
      let sound = rw e at (inv.sound i t j) in
      call-Inv inv i t j (replied r.1) (record {
        not_self = not_self inv i t j (λ q. ground arith);
        within = lt;
        fine = (told ∙ sound.0, sound.2);
        live = λ l. absurd (ground (arith, l.0));
        votes = rw e (omega arith);
        more = rw e (omega arith);
      })

  -- The vote of replica `j`, which is `v` once the term is caught up.
  granted_vote :
      (i : ℕ) (t : ℤ) (j : ℕ) (msg : RequestVoteMessage) (r : Replica × RequestVoteResponse)
      (v : Replica)
      → j < n
      → s.calls i t j ≡ asking msg
      → r.1.term ≡ msg.term
      → ballot r.0.node ≡ record (ballot v.node) { voted = msg.candidate_id }
      → (v.node.voted_for ≡ msg.candidate_id)
        ⊎ ((v.node.voted_for ≡ minus_one) × (v.node.current_term ≡ msg.term))
      → msg.term ≤ℤ v.node.current_term
      → Inv n (ballots (put_at s.nodes j v)) s.calls s.received
      → Inv n (ballots (put_at s.nodes j r.0)) (put_call s.calls i t j (replied r.1)) s.received
  granted_vote i t j msg r v lt e told same free reached inv =
      let sound = rw e at (inv.sound i t j) in
      let other : i ≢ j = not_self inv i t j (λ q. ground arith) in
      let own : put_at s.nodes j v j ≡ v = ground arith in
      let free' : ((put_at s.nodes j v j).node.voted_for ≡ pos i)
          ⊎ ((put_at s.nodes j v j).node.voted_for ≡ minus_one) =
        elim free [
          | inl again ↦ inl (ap (λ (x : Replica). x.node.voted_for) own ∙ again ∙ sound.1)
          | inr (none_yet, now) ↦ inr (ap (λ (x : Replica). x.node.voted_for) own ∙ none_yet)
        ] in
      let term_j : (put_at s.nodes j v j).node.current_term ≡ v.node.current_term =
        ap (λ (x : Replica). x.node.current_term) own in
      let older : (put_at s.nodes j v j).node.current_term
          ≤ℤ (put_at s.nodes j v i).node.current_term =
        elim free [
          | inl again ↦
              inv.voters i j (ap (λ (x : Replica). x.node.voted_for) own ∙ again ∙ sound.1)
          | inr (none_yet, now) ↦
              subst (λ x. x ≤ℤ (put_at s.nodes j v i).node.current_term)
                (sym (term_j ∙ now ∙ sound.0)) sound.2
        ] in
      let c = cast-Change inv i j other older free' in
      let final : record (ballots (put_at s.nodes j v) j) { voted = pos i } ≡ ballot r.0.node =
        ap (λ (x : Replica). record (ballot x.node) { voted = pos i }) own
        ∙ ap (λ c. record (ballot v.node) { voted = c }) (sym sound.1)
        ∙ sym same in
      let c' : Change inv j (ballot r.0.node) = subst (λ b. Change inv j b) final c in
      let inv' : Inv n (ballots (put_at s.nodes j r.0)) s.calls s.received =
        subst (λ f. Inv n (ballots f) s.calls s.received) (put_at_twice s.nodes j v r.0)
          (put-Inv (put_at s.nodes j v) inv j r.0 c') in
      let sound' = rw e at (inv'.sound i t j) in
      let own' : put_at s.nodes j r.0 j ≡ r.0 = ground arith in
      let voted_j : (put_at s.nodes j r.0 j).node.voted_for ≡ pos i =
        ap (λ (x : Replica). x.node.voted_for) own' ∙ ap (λ b. b.voted) same ∙ sound.1 in
      let now_j : (put_at s.nodes j r.0 j).node.current_term ≡ v.node.current_term =
        ap (λ (x : Replica). x.node.current_term) own' ∙ ap (λ b. b.term) same in
      call-Inv inv' i t j (replied r.1) (record {
        not_self = other;
        within = lt;
        fine = (told ∙ sound.0, sound'.2);
        live = λ l. inr (caught now_j sound.0 reached (inv'.voters i j voted_j) l.1, voted_j);
        votes = rw e (omega arith);
        more = rw e (omega arith);
      })

  pub voted :
      (i : ℕ) (t : ℤ) (j : ℕ) (msg : RequestVoteMessage) (r : Replica × RequestVoteResponse)
      → j < n
      → s.calls i t j ≡ asking msg
      → request_vote msg (s.nodes j) ≡ ok r
      → IsSafe n
          (record s { nodes = put_at s.nodes j r.0; calls = put_call s.calls i t j (replied r.1) })
  voted i t j msg r lt e run =
      let votes = request_vote-Votes msg (s.nodes j) r run in
      record {
        election = elim votes.ballots [
          | inl (rejected, same) ↦ rejected_vote i t j msg r lt e votes.reply rejected same
          | inr (same, free) ↦
              granted_vote i t j msg r (catch_up msg.term (s.nodes j)) lt e votes.reply same free
                (catch_up-le msg.term (s.nodes j)) (caught_up j msg.term)
        ];
        replicas = put-IsReplica s.nodes safe.replicas j r.0 (votes.keeps n j (safe.replicas j));
      }

-- ===== src/Raft/Cluster/Elections.antt =====
-- The ballots that an election and the replies in it leave, and those of the other operations.
use distributed_dns.Base.{
  ℕ, suc, ◌+◌, ◌*◌, ◌<◌, ◌≡◌, ◌⊎◌, inl, inr, refl, sym, ap, ◌∙◌, arith, Bool, true, Bool-cases,
  Option, none, some, List, [], ◌∷◌, Run, ok, ◌>>=◌, ltb, ◌==◌, StringMap, Gob,
}
use distributed_dns.Base.Int.{pos, ◌<ℤ◌, ltb_ℤ, eqb_ℤ, add32}
use distributed_dns.Raft.Protos.{RequestVoteResponse}
use distributed_dns.Raft.Node.{
  follower, candidate, leader, RaftNode, Replica, Value, persist, emit, ask_vote,
}
use distributed_dns.Raft.Persist.{store_node-Keeps}
use distributed_dns.Raft.States.{is_candidate, ask_votes, start_election, to_candidate}
use distributed_dns.Raft.Election.{to_leader, vote_reply}
use distributed_dns.Raft.Storage.{new_node, has_data, initialize_node, initialize_node-Keeps}
use distributed_dns.Raft.Cluster.Ballot.{Ballot, ballot, Moves, stay, rejoin, stand}
use distributed_dns.Raft.Cluster.Effects.{
  IsReplica, Rests, Proceeds, Proceeds-Rests, Rests-trans, Rests-of, ok_injective,
  to_follower-Proceeds, persist-IsVoteSaved,
}

-- The loop of `StartElection` only starts goroutines.
ask_votes-Rests :
    (self k : ℕ) (stubs : List Bool) (w : Replica) → Rests w (ask_votes self k stubs w)
unfolding ask_votes
ask_votes-Rests self k [] w = Rests-of w w refl refl refl (λ s. s)
ask_votes-Rests self k (stub ∷ stubs) w = elim (Bool-cases (k == self)) [
  | inl own ↦ rw own (ask_votes-Rests self (suc k) stubs w)
  | inr other ↦ elim (Bool-cases stub) [
    | inl there ↦
        rw (other, there)
          (Rests-trans (Rests-of w (emit (ask_vote k) w) refl refl refl (λ s. s))
            (ask_votes-Rests self (suc k) stubs (emit (ask_vote k) w)))
    | inr missing ↦ rw (other, missing) (ask_votes-Rests self (suc k) stubs w)
  ]
]

pub to_candidate-ballot :
    (w : Replica)
    → ballot (to_candidate w).node ≡ record {
      state = candidate;
      term = add32 w.node.current_term (pos 1);
      voted = pos w.node.meta.replica_id;
    }
unfolding to_candidate start_election
to_candidate-ballot w = (ask_votes-Rests _ 0 w.node.meta.peer_replica_clients _).same

pub to_candidate-Proceeds :
    (n i : ℕ) (w : Replica)
    → IsReplica n i w
    → w.node.current_term <ℤ add32 w.node.current_term (pos 1)
    → Proceeds i w (to_candidate w)
unfolding to_candidate start_election
to_candidate-Proceeds n i w r lt =
    let changed : RaftNode = record w.node {
      state = candidate;
      current_term = add32 w.node.current_term (pos 1);
      voted_for = pos w.node.meta.replica_id;
    } in
    let stood : Replica = persist (record w { node = changed }) in
    let p : Proceeds i w stood = record {
      moves = rw (r.number) (stand (add32 w.node.current_term (pos 1)) lt);
      keeps = λ n i k. record {
        size = k.size;
        number = k.number;
        saved = persist-IsVoteSaved (record w { node = changed });
      };
    } in
    let asked : Replica =
      ask_votes w.node.meta.replica_id 0 w.node.meta.peer_replica_clients stood in
    Proceeds-Rests i p (
      Rests-trans (ask_votes-Rests w.node.meta.replica_id 0 w.node.meta.peer_replica_clients stood)
        (Rests-of asked _ refl refl refl (λ s. s)))

-- What a reply does to the ballot, and when it is counted.
pub record Counts (i : ℕ) (response : RequestVoteResponse) (votes : ℕ) (w : Replica)
    (r : Replica × ℕ) : Type 0 where
  pub keeps : (n i : ℕ) → IsReplica n i w → IsReplica n i r.0
  pub ballots :
      ((r.1 ≡ votes) × Moves i (ballot w.node) (ballot r.0.node))
      ⊎ ((r.1 ≡ votes + 1)
          × (response.vote_granted ≡ true)
          × (response.term ≡ w.node.current_term)
          × (w.node.state ≡ candidate)
          × ((ballot r.0.node ≡ ballot w.node)
              ⊎ ((ballot r.0.node ≡ record (ballot w.node) { state = leader })
                  × (w.node.meta.n_replicas < 2 * (votes + 1)))))

to_leader-keeps : (w : Replica) (n i : ℕ) → IsReplica n i w → IsReplica n i (to_leader w)
unfolding to_leader
to_leader-keeps w n i k = record {
  size = k.size;
  number = k.number;
  saved = inr (_, _, refl, store_node-Keeps _ _, refl, refl);
}

to_leader-ballot :
    (w : Replica) → ballot (to_leader w).node ≡ record (ballot w.node) { state = leader }
unfolding to_leader
to_leader-ballot w = refl

Counts-same :
    (i : ℕ) (response : RequestVoteResponse) (votes : ℕ) (w : Replica) {r r' : Replica × ℕ}
    → r' ≡ r
    → Counts i response votes w r
    → Counts i response votes w r'
Counts-same i response votes w e c = rw e c

pub vote_reply-Counts :
    (i : ℕ) (response : RequestVoteResponse) (votes : ℕ) (w : Replica)
    → Counts i response votes w (vote_reply response votes w)
unfolding vote_reply
vote_reply-Counts i response votes w =
    let ignored : Counts i response votes w (w, votes) = record {
      keeps = λ n i k. k;
      ballots = inl (refl, stay);
    } in
    elim (Bool-cases (is_candidate w.node.state)) [
      | inr not_standing ↦ rw not_standing ignored
      | inl standing ↦ elim (Bool-cases (ltb_ℤ w.node.current_term response.term)) [
        | inl newer ↦
            let p = to_follower-Proceeds i response.term w (ground arith) in
            rw (standing, newer) (record { keeps = p.keeps; ballots = inl (refl, p.moves) })
        | inr not_newer ↦ elim (Bool-cases (eqb_ℤ response.term w.node.current_term)) [
          | inr older ↦ rw (standing, not_newer, older) ignored
          | inl same ↦ elim (Bool-cases response.vote_granted) [
            | inr rejected ↦
                Counts-same i response votes w (simp (standing, not_newer, same, rejected)) ignored
            | inl granted ↦ elim (Bool-cases (ltb w.node.meta.n_replicas ((votes + 1) * 2))) [
              | inl won ↦
                  Counts-same i response votes w (simp (standing, not_newer, same, granted, won))
                    (record {
                      keeps = to_leader-keeps w;
                      ballots = inr (
                        refl,
                        granted,
                        ground arith,
                        ground arith,
                        inr (to_leader-ballot w, ground arith),
                      );
                    })
              | inr not_yet ↦
                  Counts-same i response votes w
                    (simp (standing, not_newer, same, granted, not_yet))
                    (record {
                      keeps = λ n i k. k;
                      ballots = inr (refl, granted, ground arith, ground arith, inl refl);
                    })
            ]
          ]
        ]
      ]
    ]

module _ (gob : Gob Value) where
  open gob use {encode}

  -- The process of replica `i` starts again on the file that it left, if any.
  unfoldable pub reboot : ℕ → ℕ → Option (StringMap Value) → Run Replica
  reboot n i none = do
    (node, m) ← initialize_node gob n i none
    ok (record { node = node; storage = m; saved = none; effects = [] })
  reboot n i (some saved) = do
    (node, m) ← initialize_node gob n i (some (encode saved))
    ok (record { node = node; storage = m; saved = some saved; effects = [] })

  abbrev new_replica : ℕ → ℕ → Replica
  new_replica n i = record { node = new_node n i; storage = []; saved = none; effects = [] }

  reboot_new : (n i : ℕ) → reboot n i none ≡ ok (new_replica n i)
  unfolding reboot initialize_node has_data
  reboot_new n i = refl

  reboot_saved :
      (n i : ℕ) (m : StringMap Value) (node : RaftNode) (st : StringMap Value)
      → initialize_node gob n i (some (encode m)) ≡ ok (node, st)
      → reboot n i (some m)
        ≡ ok (record { node = node; storage = st; saved = some m; effects = [] })
  unfolding reboot
  reboot_saved n i m node st started = rw started refl

  rejoin_as :
      (i : ℕ) (b b' : Ballot)
      → b'.state ≡ follower
      → b'.term ≡ b.term
      → b'.voted ≡ b.voted
      → Moves i b b'
  rejoin_as i b b' e e' e'' =
      let same : b' ≡ record { state = follower; term = b.term; voted = b.voted } = cc in
      rw same rejoin

  pub reboot-Proceeds :
      (n i : ℕ) (w w' : Replica)
      → IsReplica n i w
      → reboot n i w.saved ≡ ok w'
      → Moves i (ballot w.node) (ballot w'.node) × IsReplica n i w'
  reboot-Proceeds n i w w' r run = elim r.saved [
    | inl (nothing, term, voted) ↦
        let e : new_replica n i ≡ w' = ok_injective (sym (reboot_new n i) ∙ (rw nothing at run)) in
        rw (← e) (
          rejoin_as i (ballot w.node) (ballot (new_node n i)) refl (sym term) (sym voted),
          record { size = refl; number = refl; saved = inl (refl, refl, refl) },
        )
    | inr (m, n0, written, keeps, term, voted) ↦
        let ((node, st), started, same) = initialize_node-Keeps gob n i m n0 keeps in
        let back : Replica = record { node = node; storage = st; saved = some m; effects = [] } in
        let e : back ≡ w' =
          ok_injective (sym (reboot_saved n i m node st started) ∙ (rw written at run)) in
        rw (← e) (
          rejoin_as i (ballot w.node) (ballot node) (ap (λ x. x.state) same)
              (ap (λ x. x.current_term) same ∙ term) (ap (λ x. x.voted_for) same ∙ voted),
          record {
            size = ap (λ x. x.meta.n_replicas) same;
            number = ap (λ x. x.meta.replica_id) same;
            saved = inr (
              m,
              n0,
              refl,
              keeps,
              sym (ap (λ x. x.current_term) same),
              sym (ap (λ x. x.voted_for) same),
            );
          },
        )
  ]

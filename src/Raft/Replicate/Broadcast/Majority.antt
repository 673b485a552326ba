-- ===== src/Raft/Replicate/Broadcast/Majority.antt =====
-- The verdict of `LeaderSendAEs`, and the replicas that hold the leader's entries then.
use distributed_dns.Base.{
  ℕ, suc, ◌+◌, ◌*◌, ◌≤◌, ◌<◌, ◌≡◌, ◌≢◌, inl, inr, refl, ap, arith, Bool, true, false, Bool-cases,
  Option, some, List, [], ◌∷◌, length, if◌then◌else◌, Returns,
}
use distributed_dns.Base.Int.{ℤ, pos}
use distributed_dns.Raft.Protos.{AppendEntriesMessage}
use distributed_dns.Raft.Node.{Replica}
use distributed_dns.Raft.Quorum.{
  Tally, new_tally, count_outcomes, trues, received, received-majority,
}
use distributed_dns.Raft.Replicate.Converge.{Link, answer, lossless, lossless-AllArrive, with_both}
use distributed_dns.Raft.Replicate.Broadcast.{leader_send_aes, targets}
use distributed_dns.Raft.Replicate.Broadcast.Goroutine.{Ready}
use distributed_dns.Raft.Replicate.Broadcast.Targets.{
  Each, Each-map, Ascending, Ascending-le, targets-Chosen,
}
use distributed_dns.Raft.Replicate.Broadcast.Outcomes.{Agrees, Outcomes, Sent, send_each-Sent}

-- The replicas of which the call succeeded.
abbrev chosen : List ℕ → List Bool → List ℕ
chosen [] os = []
chosen (id ∷ ids) [] = []
chosen (id ∷ ids) (true ∷ os) = id ∷ chosen ids os
chosen (id ∷ ids) (false ∷ os) = chosen ids os

chosen-Ascending :
    (i : ℕ) (ids : List ℕ) (os : List Bool) → Ascending i ids → Ascending i (chosen ids os)
chosen-Ascending i [] os up = tt
chosen-Ascending i (id ∷ ids) [] up = tt
chosen-Ascending i (id ∷ ids) (true ∷ os) up = (up.0, chosen-Ascending (suc id) ids os up.1)
chosen-Ascending i (id ∷ ids) (false ∷ os) up =
    Ascending-le (chosen ids os) (omega (arith, up.0)) (chosen-Ascending (suc id) ids os up.1)

chosen-Each : (P : ℕ → Type 0) (ids : List ℕ) (os : List Bool) → Each P ids → Each P (chosen ids os)
chosen-Each P [] os h = tt
chosen-Each P (id ∷ ids) [] h = tt
chosen-Each P (id ∷ ids) (true ∷ os) h = (h.0, chosen-Each P ids os h.1)
chosen-Each P (id ∷ ids) (false ∷ os) h = chosen-Each P ids os h.1

-- The chosen ones have the entries, and are as many as the successes.
chosen-Agrees :
    (w : Replica) (upper : ℕ) (links after : ℕ → Link) (ids : List ℕ) (os : List Bool)
    → Outcomes w upper links after ids os
    → Each (λ j. Agrees w upper (after j).0) (chosen ids os)
      × (length (chosen ids os) ≡ trues os)
      × (length os ≡ length ids)
chosen-Agrees w upper links after [] [] h = (tt, refl, refl)
chosen-Agrees w upper links after [] (o ∷ os) h = absurd h
chosen-Agrees w upper links after (id ∷ ids) [] h = absurd h
chosen-Agrees w upper links after (id ∷ ids) (true ∷ os) (here, rest) =
    let (agree, count, size) = chosen-Agrees w upper links after ids os rest in
    elim here [
      | inl (_, held) ↦ ((held, agree), ap suc count, ap suc size)
      | inr (failed, _) ↦ absurd (ground arith)
    ]
chosen-Agrees w upper links after (id ∷ ids) (false ∷ os) (here, rest) =
    let (agree, count, size) = chosen-Agrees w upper links after ids os rest in
    (agree, count, ap suc size)

-- How many of the connections lose no call.
abbrev pub reliable : (ℕ → Link) → List ℕ → ℕ
reliable links [] = 0
reliable links (id ∷ ids) = (if lossless (links id).1 then 1 else 0) + reliable links ids

reliable-chosen :
    (w : Replica) (upper : ℕ) (links after : ℕ → Link) (ids : List ℕ) (os : List Bool)
    → Outcomes w upper links after ids os
    → reliable links ids ≤ length (chosen ids os)
reliable-chosen w upper links after [] [] h = omega arith
reliable-chosen w upper links after [] (o ∷ os) h = absurd h
reliable-chosen w upper links after (id ∷ ids) [] h = absurd h
reliable-chosen w upper links after (id ∷ ids) (true ∷ os) (here, rest) =
    ground (arith, reliable-chosen w upper links after ids os rest)
reliable-chosen w upper links after (id ∷ ids) (false ∷ os) (here, rest) =
    let more = reliable-chosen w upper links after ids os rest in
    elim here [
      | inl (success, _) ↦ absurd (ground arith)
      | inr (_, some_lost) ↦ elim (Bool-cases (lossless (links id).1)) [
        | inl none_lost ↦ absurd (some_lost (lossless-AllArrive (links id).1 none_lost))
        | inr loses ↦ rw loses (omega (arith, more))
      ]
    ]

abbrev pub targets_of : Replica → List ℕ
targets_of w = targets w.node.meta.replica_id 0 w.node.meta.peer_replica_clients

-- The leader has a place for each replica, and can send to every other one.
pub record CanSend (w : Replica) (upper : ℕ) (links : ℕ → Link) : Type 0 where
  pub places : length w.node.meta.peer_replica_clients ≡ w.node.meta.n_replicas
  pub own : w.node.meta.replica_id < w.node.meta.n_replicas
  pub several : 2 ≤ w.node.meta.n_replicas
  pub ready : Each (λ j. Ready w upper j (links j).0) (targets_of w)

-- A majority: the leader `w`, and other replicas with this property, each counted once.
pub record MajorityHas (P : ℕ → Type 0) (w : Replica) : Type 0 where
  pub held : List ℕ
  pub once : Ascending 0 held
  pub others : Each (λ j. (j < w.node.meta.n_replicas) × (j ≢ w.node.meta.replica_id)) held
  pub has : Each P held
  pub majority : w.node.meta.n_replicas < 2 * (length held + 1)

-- What the verdict says: true only if a majority has the leader's entries, and true if the leader and
-- the connections that lose no call are a majority.
pub record Replicated (w : Replica) (upper : ℕ) (links : ℕ → Link)
    (r : Option (Replica × Tally × (ℕ → Link))) : Type 0 where
  pub nexts : List ℤ
  pub matches : List ℤ
  pub tally : Tally
  pub after : ℕ → Link
  pub result : r ≡ some (with_both w nexts matches, tally, after)
  pub backed : received tally.sent ≡ some true → MajorityHas (λ j. Agrees w upper (after j).0) w
  pub complete :
      w.node.meta.n_replicas < 2 * (reliable links (targets_of w) + 1)
      → received tally.sent ≡ some true

Sent-Replicated :
    {w : Replica} {upper : ℕ} {links : ℕ → Link} {r : Option (Replica × Tally × (ℕ → Link))}
    → CanSend w upper links
    → Sent w upper links (targets_of w) new_tally r
    → Replicated w upper links r
Sent-Replicated {w} {upper} {links} c s =
    let all = targets-Chosen w.node.meta.replica_id 0 w.node.meta.peer_replica_clients in
    let (agree, count, size) =
      chosen-Agrees w upper links s.after (targets_of w) s.outcomes s.ended in
    let majority =
      received-majority w.node.meta.n_replicas s.outcomes c.several
        (ground (arith, all.few, size, c.places, c.own)) in
    record {
      nexts = s.nexts;
      matches = s.matches;
      tally = count_outcomes w.node.meta.n_replicas new_tally s.outcomes;
      after = s.after;
      result = s.result;
      backed = λ h. record {
        held = chosen (targets_of w) s.outcomes;
        once = chosen-Ascending 0 (targets_of w) s.outcomes all.ascending;
        others =
            chosen-Each _ (targets_of w) s.outcomes
              (Each-map (targets_of w) (λ j h. (omega (arith, h.0, c.places), h.1)) all.others);
        has = agree;
        majority = rw count (majority.0 h);
      };
      complete = λ lt. majority.1 (
          omega (
            arith,
            lt,
            count,
            reliable-chosen w upper links s.after (targets_of w) s.outcomes s.ended,
          ));
    }

-- `LeaderSendAEs` of a leader that can send to its peers, over connections that may lose requests
-- and replies, returns. Its verdict is true only if a majority has the leader's entries up to the
-- index at the end: the leader, and other replicas, each counted once. It is true whenever the
-- leader and the peers with a stub whose connections lose no call are a majority.
pub leader_send_aes-Replicated :
    (fuel : ℕ) (w : Replica) (upper : ℕ) (base : AppendEntriesMessage) (links : ℕ → Link)
    → CanSend w upper links
    → base.term ≡ w.node.current_term
    → suc upper < fuel
    → Returns (leader_send_aes answer fuel (pos upper) base w links) (Replicated w upper links)
unfolding leader_send_aes
leader_send_aes-Replicated fuel w upper base links c same enough =
    let all = targets-Chosen w.node.meta.replica_id 0 w.node.meta.peer_replica_clients in
    let (r, run, s) =
      send_each-Sent fuel w upper base (targets_of w) new_tally links same enough 0 all.ascending
        c.ready in
    (r, run, Sent-Replicated c s)

-- ===== src/Raft/Cluster/Invariant.antt =====
-- The invariant of an election in which each request carries the term of its election.
use distributed_dns.Base.{
  ℕ, ◌+◌, ◌*◌, ◌≤◌, ◌<◌, ◌≡◌, ◌≢◌, ◌⊎◌, inl, inr, arith, true, put_at, sum, ◌==◌, Bool-cases,
  ==_iff,
}
use distributed_dns.Base.Int.{ℤ, pos, minus_one, ◌<ℤ◌, ◌≤ℤ◌}
use distributed_dns.Raft.Node.{candidate, leader}
use distributed_dns.Raft.Cluster.Ballot.{
  Ballot, Moves, stay, rise, step_down, stand, Call, idle, asking, replied, ended,
}

-- A vote in an election of term `t` that is counted, or may still be, with the candidate's term.
abbrev pub IsLive : ℤ → ℤ → Call → Type 0
IsLive now t (replied r) = (r.vote_granted ≡ true) × (now ≡ t)
IsLive now t (ended true) = Unit
IsLive now t _ = ⊥

-- What a call of replica `i` in the election of term `t` carries.
abbrev pub IsSound : ℕ → ℤ → ℤ → Call → Type 0
IsSound i now t idle = Unit
IsSound i now t (asking msg) = (msg.term ≡ t) × (msg.candidate_id ≡ pos i) × (t ≤ℤ now)
IsSound i now t (replied r) = (r.term ≡ t) × (t ≤ℤ now)
IsSound i now t _ = t ≤ℤ now

abbrev pub weight : Call → ℕ
weight (ended true) = 1
weight _ = 0

-- The vote of a replica in a term is this candidate's, or the term is over for it.
abbrev pub IsCast : Ballot → ℤ → ℕ → Type 0
IsCast b t i = (t <ℤ b.term) ⊎ ((t ≡ b.term) × (b.voted ≡ pos i))

abbrev pub Calls : Type 0
Calls = ℕ → ℤ → ℕ → Call

pub record Inv (n : ℕ) (bal : ℕ → Ballot) (calls : Calls) (received : ℕ → ℤ → ℕ) : Type 0 where
  pub stands : (i : ℕ) → (bal i).state ≡ candidate → (bal i).voted ≡ pos i
  pub leads : (i : ℕ) → (bal i).state ≡ leader → (bal i).voted ≡ pos i
  pub voters : (i j : ℕ) → (bal j).voted ≡ pos i → (bal j).term ≤ℤ (bal i).term
  pub sound : (i : ℕ) (t : ℤ) (j : ℕ) → IsSound i (bal i).term t (calls i t j)
  pub others : (i : ℕ) (t : ℤ) → calls i t i ≡ idle
  pub cast : (i : ℕ) (t : ℤ) (j : ℕ) → IsLive (bal i).term t (calls i t j) → IsCast (bal j) t i
  pub once :
      (i k : ℕ) (t : ℤ) (j : ℕ)
      → IsLive (bal i).term t (calls i t j)
      → IsLive (bal k).term t (calls k t j)
      → i ≡ k
  pub counted : (i : ℕ) (t : ℤ) → received i t ≤ 1 + sum n (λ j. weight (calls i t j))
  pub won :
      (i : ℕ) → (bal i).state ≡ leader → n < 2 * (1 + sum n (λ j. weight (calls i (bal i).term j)))

-- A vote that is live after the candidate's term rose was live before.
IsLive-back :
    (i : ℕ) (now now' t : ℤ) (c : Call)
    → IsSound i now t c
    → now ≤ℤ now'
    → IsLive now' t c
    → IsLive now t c
IsLive-back i now now' t (replied r) s le l = (l.0, ground arith)
IsLive-back i now now' t (ended true) s le l = tt
IsLive-back i now now' t _ s le l = l

IsSound-later :
    (i : ℕ) (now now' t : ℤ) (c : Call) → now ≤ℤ now' → IsSound i now t c → IsSound i now' t c
IsSound-later i now now' t c le s = ground arith

-- The premise of a move, for a clause that does not name it.
abbrev Guard : {i : ℕ} {b b' : Ballot} → Moves i b b' → Type 0
Guard {b} (rise t lt) = b.term <ℤ t
Guard {b} (step_down c) = b.state ≡ candidate
Guard {b} (stand t lt) = b.term <ℤ t
Guard _ = Unit

guard : {i : ℕ} {b b' : Ballot} (mv : Moves i b b') → Guard mv
guard (rise t lt) = lt
guard (step_down c) = c
guard (stand t lt) = lt
guard _ = tt

module _ {n : ℕ} {bal : ℕ → Ballot} {calls : Calls} {received : ℕ → ℤ → ℕ}
    (inv : Inv n bal calls received) where
  open inv use {stands, leads, voters, sound, others, cast, once, counted, won}

  -- A change of one ballot, by its effect.
  pub record Change (i : ℕ) (b : Ballot) : Type 0 where
    pub later : (bal i).term ≤ℤ b.term
    pub stands' : b.state ≡ candidate → b.voted ≡ pos i
    pub leads' :
        b.state ≡ leader
        → (b.voted ≡ pos i) × (n < 2 * (1 + sum n (λ j. weight (calls i b.term j))))
    pub voted' : (k : ℕ) → b.voted ≡ pos k → (b.term ≤ℤ (bal k).term) ⊎ (k ≡ i)
    pub kept : (t : ℤ) (k : ℕ) → k ≢ i → IsCast (bal i) t k → IsCast b t k

  module _ (i : ℕ) (b : Ballot) (c : Change i b) where
    term-le : (j : ℕ) → (bal j).term ≤ℤ (put_at bal i b j).term
    term-le j = ground (arith, c.later)

    live_before :
        (j : ℕ) (t : ℤ) (k : ℕ)
        → IsLive (put_at bal i b j).term t (calls j t k)
        → IsLive (bal j).term t (calls j t k)
    live_before j t k =
        IsLive-back j (bal j).term (put_at bal i b j).term t (calls j t k) (sound j t k) (term-le j)

    not_self : (t : ℤ) (k : ℕ) → IsLive (bal k).term t (calls k t i) → k ≢ i
    not_self t k l e = ground (arith, others i t)

    won_after :
        (j : ℕ)
        → (put_at bal i b j).state ≡ leader
        → n < 2 * (1 + sum n (λ m. weight (calls j (put_at bal i b j).term m)))
    won_after j = elim (Bool-cases (i == j)) [
      | inl here ↦ let e : i ≡ j = (==_iff i j).0 here in rw (here, ← e) (λ l. (c.leads' l).1)
      | inr there ↦ rw there (won j)
    ]

    IsCast-after :
        (j : ℕ) (t : ℤ) (k : ℕ)
        → IsLive (bal j).term t (calls j t k)
        → IsCast (put_at bal i b k) t j
    IsCast-after j t k l = elim (Bool-cases (i == k)) [
      | inl here ↦
          let e : i ≡ k = (==_iff i k).0 here in
          let l' : IsLive (bal j).term t (calls j t i) = rw e l in
          rw here (c.kept t j (not_self t j l') (cast j t i l'))
      | inr there ↦ rw there (cast j t k l)
    ]

    pub Change-Inv : Inv n (put_at bal i b) calls received
    Change-Inv = record {
      stands = λ j. ground (arith, stands j, c.stands');
      leads = λ j. ground (arith, leads j, c.leads');
      voters = λ j k. ground (arith, voters j k, c.voted' j, c.later, term-le j);
      sound = λ j t k.
          IsSound-later j (bal j).term (put_at bal i b j).term t (calls j t k) (term-le j)
            (sound j t k);
      others = others;
      cast = λ j t k l. IsCast-after j t k (live_before j t k l);
      once = λ j k t m l l'. once j k t m (live_before j t m l) (live_before k t m l');
      counted = counted;
      won = won_after;
    }

  -- What one replica does alone.
  pub Moves-Change : (i : ℕ) (b b' : Ballot) → bal i ≡ b → Moves i b b' → Change i b'
  Moves-Change i b b' e stay = record {
    later = ground arith;
    stands' = ground (arith, stands i);
    leads' = rw (← e) (λ l. (leads i l, won i l));
    voted' = λ k. ground (arith, voters k i);
    kept = λ t k ne c. ground arith;
  }
  Moves-Change i b b' e mv = record {
    later = ground (arith, guard mv);
    stands' = ground (arith, guard mv);
    leads' = λ l. ground arith;
    voted' = λ k. ground (arith, guard mv, voters k i);
    kept = λ t k ne c. ground (arith, guard mv, stands i);
  }

  -- A replica gives its vote in its term, if it has none or it is the same.
  pub cast-Change :
      (i j : ℕ)
      → i ≢ j
      → (bal j).term ≤ℤ (bal i).term
      → ((bal j).voted ≡ pos i) ⊎ ((bal j).voted ≡ minus_one)
      → Change j (record (bal j) { voted = pos i })
  cast-Change i j ne le free = record {
    later = omega arith;
    stands' = ground (arith, stands j);
    leads' = λ l. (ground (arith, leads j), won j l);
    voted' = λ k. ground arith;
    kept = λ t k ne' c. ground arith;
  }

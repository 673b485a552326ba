-- ===== src/Raft/Replicate/Broadcast/Outcomes.antt =====
-- The goroutines of `LeaderSendAEs` one after the other.
use distributed_dns.Base.{
  ℕ, suc, ◌≤◌, ◌<◌, ◌≡◌, ◌≢◌, ◌⊎◌, inl, inr, refl, ◌∙◌, arith, Bool, true, false, Option, some,
  List, [], ◌∷◌, put_at, get_elem?, ◌==◌, Returns,
}
use distributed_dns.Base.Int.{ℤ, pos}
use distributed_dns.Raft.Protos.{AppendEntriesMessage}
use distributed_dns.Raft.Node.{Replica}
use distributed_dns.Raft.Quorum.{Tally, count_outcome, count_outcomes}
use distributed_dns.Raft.Replicate.Converge.{Link, answer, AllArrive, with_both, Delivered}
use distributed_dns.Raft.Replicate.Broadcast.{send_each}
use distributed_dns.Raft.Replicate.Broadcast.Goroutine.{Ready, goroutine-Delivered}
use distributed_dns.Raft.Replicate.Broadcast.Targets.{Each, Ascending}

-- The replica has the leader's entries up to `upper`.
abbrev pub Agrees : Replica → ℕ → Replica → Type 0
Agrees w upper f = (j : ℕ) → j ≤ upper → get_elem? f.node.log j ≡ get_elem? w.node.log j

-- The outcomes for these replicas: a success and the leader's entries, or a call was lost.
abbrev pub Outcomes : Replica → ℕ → (ℕ → Link) → (ℕ → Link) → List ℕ → List Bool → Type 0
Outcomes w upper links after [] [] = Unit
Outcomes w upper links after (id ∷ ids) (o ∷ os) =
    (((o ≡ true) × Agrees w upper (after id).0) ⊎ ((o ≡ false) × (¬ AllArrive (links id).1)))
    × Outcomes w upper links after ids os
Outcomes w upper links after _ _ = ⊥

pub record Sent (w : Replica) (upper : ℕ) (links : ℕ → Link) (ids : List ℕ) (tally : Tally)
    (r : Option (Replica × Tally × (ℕ → Link))) : Type 0 where
  pub nexts : List ℤ
  pub matches : List ℤ
  pub after : ℕ → Link
  pub outcomes : List Bool
  pub result :
      r
      ≡ some
          (with_both w nexts matches, count_outcomes w.node.meta.n_replicas tally outcomes, after)
  pub ended : Outcomes w upper links after ids outcomes
  pub untouched : (j k : ℕ) → Ascending k ids → j < k → after j ≡ links j

-- One more index of the leader for another replica leaves it ready for these.
Ready-after :
    {w : Replica} {upper id : ℕ} {fates : List _} {r : Option (Bool × Replica × Link)} {j : ℕ}
    {f : Replica} (d : Delivered w id upper fates r)
    → j ≢ id
    → Ready w upper j f
    → Ready (with_both w d.nexts d.matches) upper j f
Ready-after d ne r = record {
  leads = record {
    leads = r.leads.leads;
    fits = r.leads.fits;
    next = rw d.next_size r.leads.next;
    match = rw d.match_size r.leads.match;
    within = r.leads.within;
  };
  follows = record {
    valid = r.follows.valid;
    term = r.follows.term;
    matching = r.follows.matching;
  };
  next = r.next;
  at = d.elsewhere _ ne ∙ r.at;
  small = r.small;
}

put_at-other :
    (links : ℕ → Link) (id : ℕ) (l : Link) (j : ℕ) → j ≢ id → put_at links id l j ≡ links j
put_at-other links id l j ne = let other : (id == j) ≡ false = ground arith in rw other refl

put_at_self : (links : ℕ → Link) (id : ℕ) (l : Link) → put_at links id l id ≡ l
put_at_self links id l = let here : (id == id) ≡ true = ground arith in rw here refl

module _ {w : Replica} {upper id : ℕ} (links : ℕ → Link) {r : Option (Bool × Replica × Link)}
    (d : Delivered w id upper (links id).1 r) where
  -- The replicas behind are as before.
  behind-Ready :
      (k : ℕ) (ids : List ℕ)
      → id < k
      → Ascending k ids
      → Each (λ j. Ready w upper j (links j).0) ids
      → Each
          (λ j. Ready (with_both w d.nexts d.matches) upper j (put_at links id d.link_after j).0)
          ids
  behind-Ready k [] lt up ready = tt
  behind-Ready k (j ∷ ids) lt up ready =
      let ne : j ≢ id = λ e. omega (arith, e, lt, up.0) in
      (
        rw (put_at-other links id d.link_after j ne) (Ready-after d ne ready.0),
        behind-Ready (suc j) ids (omega (arith, lt, up.0)) up.1 ready.1,
      )

  behind-Outcomes :
      (after : ℕ → Link) (k : ℕ) (ids : List ℕ) (os : List Bool)
      → id < k
      → Ascending k ids
      → Outcomes (with_both w d.nexts d.matches) upper (put_at links id d.link_after) after ids os
      → Outcomes w upper links after ids os
  behind-Outcomes after k [] [] lt up h = tt
  behind-Outcomes after k [] (o ∷ os) lt up h = absurd h
  behind-Outcomes after k (j ∷ ids) [] lt up h = absurd h
  behind-Outcomes after k (j ∷ ids) (o ∷ os) lt up (here, rest) =
      let ne : j ≢ id = λ e. omega (arith, e, lt, up.0) in
      let same : put_at links id d.link_after j ≡ links j =
        put_at-other links id d.link_after j ne in
      (
        elim here [
          | inl held ↦ inl held
          | inr (failed, some_lost) ↦ inr (failed, λ all. some_lost (rw same all))
        ],
        behind-Outcomes after (suc j) ids os (omega (arith, lt, up.0)) up.1 rest,
      )

  first-Outcome :
      (after : ℕ → Link)
      → after id ≡ d.link_after
      → ((d.outcome ≡ true) × Agrees w upper (after id).0)
        ⊎ ((d.outcome ≡ false) × (¬ AllArrive (links id).1))
  first-Outcome after same = elim d.ends [
    | inl (success, _, agree) ↦ inl (success, rw same agree)
    | inr lost ↦ inr lost
  ]

pub send_each-Sent :
    (fuel : ℕ) (w : Replica) (upper : ℕ) (base : AppendEntriesMessage) (ids : List ℕ)
    (tally : Tally) (links : ℕ → Link)
    → base.term ≡ w.node.current_term
    → suc upper < fuel
    → (i : ℕ) → Ascending i ids
    → Each (λ j. Ready w upper j (links j).0) ids
    → Returns
        (send_each answer fuel (pos upper) base ids w tally links)
        (Sent w upper links ids tally)
unfolding send_each count_outcomes
send_each-Sent fuel w upper base [] tally links same enough i up ready = (
  some (w, tally, links),
  refl,
  record {
    nexts = w.node.next_index;
    matches = w.node.match_index;
    after = links;
    outcomes = [];
    result = refl;
    ended = tt;
    untouched = λ j k up lt. refl;
  },
)
send_each-Sent fuel w upper base (id ∷ ids) tally links same enough i up ready =
    let (_, d, run) =
      goroutine-Delivered fuel w upper id (links id) base tally ready.0 same enough in
    let (result, runs, s) =
      send_each-Sent fuel (with_both w d.nexts d.matches) upper base ids
        (count_outcome w.node.meta.n_replicas tally d.outcome) (put_at links id d.link_after) same
        enough (suc id) up.1 (behind-Ready links d (suc id) ids (omega arith) up.1 ready.1) in
    let own : s.after id ≡ d.link_after =
      s.untouched id (suc id) up.1 (omega arith) ∙ put_at_self links id d.link_after in
    (
      result,
      simp (run, runs),
      record {
        nexts = s.nexts;
        matches = s.matches;
        after = s.after;
        outcomes = d.outcome ∷ s.outcomes;
        result = s.result;
        ended = (
          first-Outcome links d s.after own,
          behind-Outcomes links d s.after (suc id) ids s.outcomes (omega arith) up.1 s.ended,
        );
        untouched = λ j k up' lt.
            s.untouched j (suc id) up.1 (omega (arith, lt, up'.0))
            ∙ put_at-other links id d.link_after j (λ e. omega (arith, e, lt, up'.0));
      },
    )

-- ===== src/Raft/Quorum.antt =====
-- raft/send_AEs.go: how `LeaderSendAEs` counts the outcomes of its goroutines, one for each other
-- replica, and tells its caller on the channel `successful_write`.
use mathlib.Core.Path.{ap₂}
use distributed_dns.Base.{
  ◌∙◌, ℕ, suc, ◌+◌, ◌*◌, ◌/◌, ◌≤◌, ◌<◌, ◌≡◌, Bool, true, false, List, [], ◌∷◌, arith, length, leb,
  ◌==◌, if◌then◌else◌, Option, none, some, ◌↔◌, Bool-cases, inl, inr, refl,
}

-- The two counters, and what was sent on the channel, the latest first. The leader counts itself.
pub record Tally : Type 0 where
  pub successes : ℕ
  pub failures : ℕ
  pub sent : List Bool

abbrev pub new_tally : Tally
new_tally = record { successes = 1; failures = 0; sent = [] }

-- The end of a goroutine: `LeaderSendAE` returned this outcome.
unfoldable pub count_outcome : ℕ → Tally → Bool → Tally
count_outcome n t true = record t {
  successes = t.successes + 1;
  sent = if t.successes + 1 == n / 2 + 1 then true ∷ t.sent else t.sent;
}
count_outcome n t false = record t {
  failures = t.failures + 1;
  sent = if t.failures + 1 == (n + 1) / 2 then false ∷ t.sent else t.sent;
}

-- The goroutines end in any order.
unfoldable pub count_outcomes : ℕ → Tally → List Bool → Tally
count_outcomes n t [] = t
count_outcomes n t (o ∷ os) = count_outcomes n (count_outcome n t o) os

abbrev pub trues : List Bool → ℕ
trues [] = 0
trues (true ∷ os) = suc (trues os)
trues (false ∷ os) = trues os

abbrev pub falses : List Bool → ℕ
falses [] = 0
falses (true ∷ os) = falses os
falses (false ∷ os) = suc (falses os)

trues-falses : (os : List Bool) → trues os + falses os ≡ length os
trues-falses [] = omega arith
trues-falses (true ∷ os) = omega (arith, trues-falses os)
trues-falses (false ∷ os) = omega (arith, trues-falses os)

-- The verdict that so many successes and failures decide, if they do.
abbrev pub verdict : ℕ → ℕ → ℕ → List Bool
verdict n s f =
    if leb (n / 2 + 1) s then true ∷ [] else if leb ((n + 1) / 2) f then false ∷ [] else []

count_outcome-verdict :
    (n : ℕ) (t : Tally) (o : Bool)
    → t.successes + t.failures < n
    → t.sent ≡ verdict n t.successes t.failures
    → (count_outcome n t o).sent
      ≡ verdict n (count_outcome n t o).successes (count_outcome n t o).failures
unfolding count_outcome
count_outcome-verdict n t true h e = ground arith
count_outcome-verdict n t false h e = ground arith

count_outcomes-verdict :
    (n : ℕ) (t : Tally) (os : List Bool)
    → t.successes + t.failures + length os ≤ n
    → t.sent ≡ verdict n t.successes t.failures
    → (count_outcomes n t os).sent ≡ verdict n (t.successes + trues os) (t.failures + falses os)
unfolding count_outcome count_outcomes
count_outcomes-verdict n t [] h e = e ∙ ap₂ (verdict n) (omega arith) (omega arith)
count_outcomes-verdict n t (true ∷ os) h e =
    count_outcomes-verdict n (count_outcome n t true) os (omega arith)
      (count_outcome-verdict n t true (omega arith) e)
    ∙ ap₂ (verdict n) (omega arith) (omega arith)
count_outcomes-verdict n t (false ∷ os) h e =
    count_outcomes-verdict n (count_outcome n t false) os (omega arith)
      (count_outcome-verdict n t false (omega arith) e)
    ∙ ap₂ (verdict n) (omega arith) (omega arith)

-- With an outcome of each of the other replicas, of two or more in all, exactly one verdict is
-- sent, whatever the order: true if the leader and the replicas that succeeded are a majority,
-- false if not.
pub one_verdict :
    (n : ℕ) (os : List Bool)
    → 2 ≤ n
    → length os + 1 ≡ n
    → (count_outcomes n new_tally os).sent ≡ leb (n + 1) (2 * (trues os + 1)) ∷ []
one_verdict n os two all =
    count_outcomes-verdict n new_tally os (omega arith) (ground arith)
    ∙ ground (arith, trues-falses os)

-- With outcomes of at most all the other replicas, where the leader and those that succeeded are no
-- majority and those that failed are fewer than half of all, no verdict is sent.
pub no_verdict :
    (n : ℕ) (os : List Bool)
    → length os + 1 ≤ n
    → 2 * (trues os + 1) ≤ n
    → 2 * falses os < n
    → (count_outcomes n new_tally os).sent ≡ []
no_verdict n os few s f =
    count_outcomes-verdict n new_tally os (omega arith) (ground arith) ∙ ground arith

-- What the receiver gets first, if anything.
abbrev pub received : List Bool → Option Bool
received [] = none
received (v ∷ []) = some v
received (v ∷ u ∷ vs) = received (u ∷ vs)

received-verdict : (n s f : ℕ) → (received (verdict n s f) ≡ some true) ↔ (n < 2 * s)
received-verdict n s f = elim (Bool-cases (leb (n / 2 + 1) s)) [
  | inl most ↦ rw most (λ _. ground arith, λ _. refl)
  | inr few ↦ elim (Bool-cases (leb ((n + 1) / 2) f)) [
    | inl failed ↦ rw (few, failed) (λ h. absurd (ground arith), λ lt. absurd (ground arith))
    | inr open_yet ↦ rw (few, open_yet) (λ h. absurd (ground arith), λ lt. absurd (ground arith))
  ]
]

pub received-majority :
    (n : ℕ) (os : List Bool)
    → 2 ≤ n
    → length os + 1 ≤ n
    → (received (count_outcomes n new_tally os).sent ≡ some true) ↔ (n < 2 * (trues os + 1))
received-majority n os two few =
    let sent : (count_outcomes n new_tally os).sent ≡ verdict n (1 + trues os) (0 + falses os) =
      count_outcomes-verdict n new_tally os (omega arith) (ground arith) in
    let swap : 1 + trues os ≡ trues os + 1 = omega arith in
    rw sent (rw swap (received-verdict n (trues os + 1) (0 + falses os)))

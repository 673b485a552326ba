-- ===== src/Raft/Replicate/Broadcast/Targets.antt =====
-- The replicas that `LeaderSendAEs` sends to.
use distributed_dns.Base.{
  ℕ, suc, ◌+◌, ◌≤◌, ◌<◌, ◌≢◌, arith, Bool, Bool-cases, inl, inr, List, [], ◌∷◌, length, ltb, leb,
  ◌&&◌, ◌==◌, if◌then◌else◌,
}
use distributed_dns.Raft.Replicate.Broadcast.{targets}

abbrev pub Each : (ℕ → Type 0) → List ℕ → Type 0
Each P [] = Unit
Each P (x ∷ xs) = P x × Each P xs

-- From this number on, each greater than the one before.
abbrev pub Ascending : ℕ → List ℕ → Type 0
Ascending i [] = Unit
Ascending i (x ∷ xs) = (i ≤ x) × Ascending (suc x) xs

pub Ascending-le : {i k : ℕ} (xs : List ℕ) → i ≤ k → Ascending k xs → Ascending i xs
Ascending-le [] le a = tt
Ascending-le (x ∷ xs) le a = (omega (arith, le, a.0), a.1)

pub Each-map : {P Q : ℕ → Type 0} (xs : List ℕ) → ((j : ℕ) → P j → Q j) → Each P xs → Each Q xs
Each-map [] f h = tt
Each-map (x ∷ xs) f h = (f x h.0, Each-map xs f h.1)

-- What the loop gives from replica `i` on: other replicas, each once.
pub record Chosen (self i n : ℕ) (ids : List ℕ) : Type 0 where
  pub ascending : Ascending i ids
  pub others : Each (λ j. (j < i + n) × (j ≢ self)) ids
  pub few : length ids + (if leb i self && ltb self (i + n) then 1 else 0) ≤ n

pub targets-Chosen :
    (self i : ℕ) (stubs : List Bool) → Chosen self i (length stubs) (targets self i stubs)
unfolding targets
targets-Chosen self i [] = record { ascending = tt; others = tt; few = ground arith }
targets-Chosen self i (stub ∷ stubs) =
    let rest = targets-Chosen self (suc i) stubs in
    elim (Bool-cases (i == self)) [
      | inl own ↦ rw own (skip rest)
      | inr other ↦ elim (Bool-cases stub) [
        | inl there ↦
            rw (other, there)
              (record {
                ascending = (omega arith, rest.ascending);
                others = (
                  (omega arith, λ e. ground arith),
                  widen (targets self (suc i) stubs) rest.others,
                );
                few = ground (arith, rest.few);
              })
        | inr nil ↦ rw (other, nil) (skip rest)
      ]
    ]
  where
    widen :
        (ids : List ℕ)
        → Each (λ j. (j < suc i + length stubs) × (j ≢ self)) ids
        → Each (λ j. (j < i + suc (length stubs)) × (j ≢ self)) ids
    widen ids = Each-map ids (λ j h. (omega (arith, h.0), h.1))

    skip :
        {ids : List ℕ}
        → Chosen self (suc i) (length stubs) ids
        → Chosen self i (suc (length stubs)) ids
    skip {ids} c = record {
      ascending = Ascending-le ids (omega arith) c.ascending;
      others = widen ids c.others;
      few = ground (arith, c.few);
    }

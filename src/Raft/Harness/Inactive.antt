-- ===== src/Raft/Harness/Inactive.antt =====
-- `check_consensus` while a replica is not active.
use distributed_dns.Base.{
  some_injective, ℕ, zero, suc, ◌+◌, ◌<◌, ◌≤◌, ◌≡◌, ◌⊎◌, inl, inr, refl, arith, false, Bool-cases,
  Option-cases, some, List, [], ◌∷◌, length, get_elem?, get_elem?-of_lt, get_elem?-of_ge, ◌==◌, ltb,
  if◌then◌else◌, ok, fault, panic,
}
use distributed_dns.Base.Int.{ℤ, pos, negsuc}
use distributed_dns.Raft.Protos.{LogEntry}
use distributed_dns.Raft.Node.{entry_at}
use distributed_dns.Raft.Harness.{
  Slot, collect, same_entry, log_at, count_same, count_most, check_consensus,
}

log_at-of_lt :
    (logs : List LogEntry) (i : ℕ) → i < length logs → (e : LogEntry) × (log_at logs i ≡ ok e)
log_at-of_lt logs i lt = let (e, at) = get_elem?-of_lt logs i lt in (e, rw (at, log_at) refl)

log_at-of_ge : (logs : List LogEntry) (i : ℕ) → length logs ≤ i → log_at logs i ≡ fault panic
log_at-of_ge logs i ge = rw (get_elem?-of_ge logs i ge, log_at) refl

-- With fewer entries than rounds, the loop over `j` for the first replica leaves `logs`.
count_same-short :
    (logs : List LogEntry) (rounds j count : ℕ)
    → 0 < j
    → j ≤ length logs
    → length logs < j + rounds
    → count_same logs 0 rounds j count ≡ fault panic
unfolding count_same
count_same-short logs zero j count later within short = absurd (omega (arith, within, short))
count_same-short logs (suc rounds) j count later within short =
    let other : (0 == j) ≡ false = ground arith in
    let (a, at) = log_at-of_lt logs 0 (omega (arith, later, within)) in
    elim (Bool-cases (ltb j (length logs))) [
      | inl here ↦
          let inside : j < length logs = ground arith in
          let (b, at') = log_at-of_lt logs j inside in
          rw (other, at, at')
            (count_same-short logs rounds (suc j) (if same_entry a b then suc count else count)
              (omega arith) inside (omega (arith, short)))
      | inr there ↦
          let outside : length logs ≤ j = ground arith in
          rw (other, at, log_at-of_ge logs j outside) refl
    ]

count_most-short :
    (logs : List LogEntry) (n : ℕ) → length logs < n → 2 ≤ n → count_most logs n n 0 0 ≡ fault panic
unfolding count_most count_same
count_most-short logs zero short several = absurd (omega (arith, several))
count_most-short logs (suc zero) short several = absurd (omega (arith, several))
count_most-short [] (suc (suc n)) short several = refl
count_most-short (e ∷ logs) (suc (suc n)) short several =
    let first : count_same (e ∷ logs) 0 (suc n) 1 1 ≡ fault panic =
      count_same-short (e ∷ logs) (suc n) 1 1 (omega arith) (omega arith) (omega (arith, short)) in
    rw first refl

abbrev actives : List Slot → ℕ
actives [] = 0
actives (s ∷ ss) = (if s.active then 1 else 0) + actives ss

actives-le : (ss : List Slot) → actives ss ≤ length ss
actives-le [] = omega arith
actives-le (s ∷ ss) = ground (arith, actives-le ss)

actives-lt :
    (ss : List Slot) (i : ℕ) (s : Slot)
    → get_elem? ss i ≡ some s
    → s.active ≡ false
    → actives ss < length ss
actives-lt [] i s e off = ground arith
actives-lt (u ∷ ss) zero s e off =
    let same : u ≡ s = some_injective e in
    let idle : u.active ≡ false = rw same off in rw idle (omega (arith, actives-le ss))
actives-lt (u ∷ ss) (suc i) s e off = ground (arith, actives-lt ss i s e off)

entry_at-cases :
    (log : List LogEntry) (i : ℤ)
    → (entry_at log i ≡ fault panic) ⊎ ((e : LogEntry) × (entry_at log i ≡ ok e))
entry_at-cases log (negsuc i) = inl refl
entry_at-cases log (pos i) = elim (Option-cases (get_elem? log i)) [
  | inl missing ↦ inl (rw (missing, entry_at) refl)
  | inr (e, at) ↦ inr (e, rw (at, entry_at) refl)
]

-- An entry for each active replica, or a log that is too short.
collect-actives :
    (index : ℤ) (ss : List Slot)
    → (collect index ss ≡ fault panic)
      ⊎ ((es : List LogEntry) × (collect index ss ≡ ok es) × (length es ≡ actives ss))
unfolding collect
collect-actives index [] = inr ([], refl, refl)
collect-actives index (s ∷ ss) = elim (Bool-cases s.active) [
  | inl on ↦ elim (entry_at-cases s.replica.node.log index) [
    | inl short ↦ inl (rw (on, short) refl)
    | inr (e, at) ↦ elim (collect-actives index ss) [
      | inl fails ↦ inl (rw (on, at, fails) refl)
      | inr (es, run, size) ↦ inr (e ∷ es, rw (on, at, run) refl, rw on (omega (arith, size)))
    ]
  ]
  | inr off ↦ elim (collect-actives index ss) [
    | inl fails ↦ inl (rw (off, fails) refl)
    | inr (es, run, size) ↦ inr (es, rw (off, run) refl, rw off (omega (arith, size)))
  ]
]

-- Of two or more replicas of which one is not active, `check_consensus` panics at every index.
pub check_consensus-inactive :
    (index : ℤ) (ss : List Slot) (i : ℕ) (s : Slot)
    → 2 ≤ length ss
    → get_elem? ss i ≡ some s
    → s.active ≡ false
    → check_consensus index ss ≡ fault panic
unfolding check_consensus
check_consensus-inactive index ss i s several e off = elim (collect-actives index ss) [
  | inl fails ↦ rw fails refl
  | inr (es, run, size) ↦
      rw run
        (count_most-short es (length ss) (omega (arith, size, actives-lt ss i s e off)) several)
]

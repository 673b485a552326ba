-- ===== src/Raft/Harness/Consensus.antt =====
-- What `check_consensus` counts.
use distributed_dns.Base.{
  some_injective, ℕ, zero, suc, ◌+◌, ◌≤◌, ◌≡◌, ◌≢◌, ◌↔◌, ◌⊎◌, inl, inr, refl, sym, ap, ◌∙◌, arith,
  true, Bool-cases, some, List, [], ◌∷◌, length, get_elem?, lt-of_get_elem?, ◌==◌, ltb, leb, ==_iff,
  ◌&&◌, if◌then◌else◌, GoString, str_eq_refl, str_eq→eq, ok, fault, Returns,
}
use mathlib.Core.Path.{subst}
use distributed_dns.Base.Int.{ℤ, eqb_ℤ_iff, eqb_ℤ_refl}
use distributed_dns.Raft.Protos.{LogEntry}
use distributed_dns.Raft.Node.{entry_at}
use distributed_dns.Raft.Harness.{
  Slot, collect, same_operation, same_entry, log_at, count_same, count_most, check_consensus,
}

same_operation-eq :
    (s t : List GoString) → (length s == length t) ≡ true → same_operation s t ≡ true → s ≡ t
unfolding same_operation
same_operation-eq [] [] e h = refl
same_operation-eq [] (t ∷ ts) e h = ground arith
same_operation-eq (s ∷ ss) [] e h = ground arith
same_operation-eq (s ∷ ss) (t ∷ ts) e h =
    let rest : ss ≡ ts = same_operation-eq ss ts (ground arith) (ground arith) in
    let first : s ≡ t = str_eq→eq s t (ground arith) in cc

same_operation_refl : (s : List GoString) → same_operation s s ≡ true
unfolding same_operation
same_operation_refl [] = refl
same_operation_refl (s ∷ ss) = rw (str_eq_refl s, same_operation_refl ss) refl

entry-eq :
    (a b : LogEntry) → a.term ≡ b.term → a.operation ≡ b.operation → a.clientid ≡ b.clientid → a ≡ b
entry-eq a b e e' e'' = cc

same_entry_refl : (a : LogEntry) → same_entry a a ≡ true
unfolding same_entry
same_entry_refl a =
    let size : (length a.operation == length a.operation) ≡ true = ground arith in
    rw (eqb_ℤ_refl a.term, size, str_eq_refl a.clientid, same_operation_refl a.operation) refl

pub same_entry_iff : (a b : LogEntry) → (same_entry a b ≡ true) ↔ (a ≡ b)
unfolding same_entry
same_entry_iff a b = (
  λ h.
      entry-eq a b ((eqb_ℤ_iff a.term b.term).0 (ground arith))
        (same_operation-eq a.operation b.operation (ground arith) (ground arith))
        (str_eq→eq a.clientid b.clientid (ground arith)),
  λ e. rw e (same_entry_refl b),
)

-- How many of the entries are this one.
abbrev occurrences : LogEntry → List LogEntry → ℕ
occurrences e [] = 0
occurrences e (x ∷ xs) = (if same_entry e x then 1 else 0) + occurrences e xs

-- How many of the replicas have this entry at the index.
abbrev holders : LogEntry → ℤ → List Slot → ℕ
holders e index [] = 0
holders e index (s ∷ ss) =
    elim (entry_at s.replica.node.log index) [
      | fault _ ↦ 0
      | ok x ↦ if same_entry e x then 1 else 0
    ]
    + holders e index ss

log_at-some :
    (logs : List LogEntry) (i : ℕ) {e : LogEntry} → get_elem? logs i ≡ some e → log_at logs i ≡ ok e
log_at-some logs i h = rw (h, log_at) refl

-- The loop over `j`, on the entries that are left.
count_same-occurrences :
    (logs : List LogEntry) (i : ℕ) (e : LogEntry)
    → get_elem? logs i ≡ some e
    → (left : List LogEntry) (j count : ℕ) → ((k : ℕ) → get_elem? logs (j + k) ≡ get_elem? left k)
    → (c : ℕ) × (count_same logs i (length left) j count ≡ ok c)
      × (c + (if leb j i && ltb i (j + length left) then 1 else 0) ≡ count + occurrences e left)
unfolding count_same
count_same-occurrences logs i e at [] j count h = (count, refl, ground arith)
count_same-occurrences logs i e at (b ∷ left) j count h =
    let start : j + 0 ≡ j = omega arith in
    let here : get_elem? logs j ≡ some b = rw start at (h 0) in
    let next : ℕ = if i == j then count else if same_entry e b then suc count else count in
    let (c, run, total) =
      count_same-occurrences logs i e at left (suc j) next
        (λ k. let shift : j + suc k ≡ suc j + k = omega arith in rw shift at (h (suc k))) in
    elim (Bool-cases (i == j)) [
      | inl self ↦
          let same : e ≡ b =
            some_injective (sym at ∙ (ap (get_elem? logs) ((==_iff i j).0 self) ∙ here)) in
          let counted : same_entry e b ≡ true = (same_entry_iff e b).1 same in
          (c, rw self (rw self at run), ground arith)
      | inr other ↦ (
        c,
        rw (other, log_at-some logs i at, log_at-some logs j here) (rw other at run),
        ground arith,
      )
    ]

-- The loop over `i`, on the replicas that are left.
count_most-occurrences :
    (logs left : List LogEntry) (i count : ℕ)
    → ((k : ℕ) → get_elem? logs (i + k) ≡ get_elem? left k)
    → (c : ℕ) × (count_most logs (length logs) (length left) i count ≡ ok c)
      × (count ≤ c)
      × ((k : ℕ) (e : LogEntry) → get_elem? left k ≡ some e → occurrences e logs ≤ c)
      × ((c ≡ count) ⊎ ((e : LogEntry) × (occurrences e logs ≡ c)))
unfolding count_most
count_most-occurrences logs [] i count h =
    (count, refl, omega arith, λ k e at. ground arith, inl refl)
count_most-occurrences logs (e ∷ left) i count h =
    let start : i + 0 ≡ i = omega arith in
    let here : get_elem? logs i ≡ some e = rw start at (h 0) in
    let (curr, run, total) =
      count_same-occurrences logs i e here logs 0 1 (λ k. ap (get_elem? logs) (omega arith)) in
    let within = lt-of_get_elem? logs i here in
    let exact : curr ≡ occurrences e logs = ground arith in
    let (c, run', low, all, most) =
      count_most-occurrences logs left (suc i) (if ltb count curr then curr else count)
        (λ k. let shift : i + suc k ≡ suc i + k = omega arith in rw shift at (h (suc k))) in
    (
      c,
      rw run run',
      ground arith,
      bounded c curr exact (ground arith) all,
      elim most [
        | inr found ↦ inr found
        | inl same ↦ elim (Bool-cases (ltb count curr)) [
          | inl more ↦
              let chosen : (if ltb count curr then curr else count) ≡ curr = rw more refl in
              inr (e, sym exact ∙ sym (same ∙ chosen))
          | inr less ↦
              let chosen : (if ltb count curr then curr else count) ≡ count = rw less refl in
              inl (same ∙ chosen)
        ]
      ],
    )
  where
    bounded :
        (c curr : ℕ)
        → curr ≡ occurrences e logs
        → curr ≤ c
        → ((k : ℕ) (x : LogEntry) → get_elem? left k ≡ some x → occurrences x logs ≤ c)
        → (k : ℕ) (x : LogEntry) → get_elem? (e ∷ left) k ≡ some x
        → occurrences x logs ≤ c
    bounded c curr exact le all zero x at =
        let same : e ≡ x = some_injective at in rw (← same) (omega (arith, exact, le))
    bounded c curr exact le all (suc k) x at = all k x at

-- An entry that occurs has a place.
occurrences-place :
    (e : LogEntry) (xs : List LogEntry)
    → (occurrences e xs ≡ 0) ⊎ ((k : ℕ) × (get_elem? xs k ≡ some e))
occurrences-place e [] = inl refl
occurrences-place e (x ∷ xs) = elim (Bool-cases (same_entry e x)) [
  | inl same ↦ inr (0, ap some (sym ((same_entry_iff e x).0 same)))
  | inr other ↦ elim (occurrences-place e xs) [
    | inl nowhere ↦ inl (rw (other, nowhere) refl)
    | inr (k, at) ↦ inr (suc k, at)
  ]
]

-- All replicas are active and have an entry at the index.
abbrev pub AllHold : ℤ → List Slot → Type 0
AllHold index ss =
    (i : ℕ) (s : Slot)
    → get_elem? ss i ≡ some s
    → (s.active ≡ true) × ((e : LogEntry) × (entry_at s.replica.node.log index ≡ ok e))

collect-AllHold :
    (index : ℤ) (ss : List Slot)
    → AllHold index ss
    → (es : List LogEntry) × (collect index ss ≡ ok es)
      × (length es ≡ length ss)
      × ((e : LogEntry) → holders e index ss ≡ occurrences e es)
unfolding collect
collect-AllHold index [] all = ([], refl, refl, λ e. refl)
collect-AllHold index (s ∷ ss) all =
    let (on, held_here) = all 0 s refl in
    let (x, entry) = held_here in
    let (es, run, size, held) = collect-AllHold index ss (λ i. all (suc i)) in
    let counted : (e : LogEntry) → holders e index (s ∷ ss) ≡ occurrences e (x ∷ es) =
      λ e. rw (entry, held e) refl in
    (x ∷ es, rw (on, entry, run) refl, ap suc size, counted)

-- So many of the replicas have this entry at the index, and all others have another one there.
pub data Have (e : LogEntry) (index : ℤ) : List Slot → ℕ → Type 0 where
  no_more : Have e index [] 0
  same :
      {s : Slot} {ss : List Slot} {n : ℕ}
      → entry_at s.replica.node.log index ≡ ok e
      → Have e index ss n
      → Have e index (s ∷ ss) (suc n)
  other :
      {s : Slot} {ss : List Slot} {n : ℕ} {x : LogEntry}
      → entry_at s.replica.node.log index ≡ ok x
      → e ≢ x
      → Have e index ss n
      → Have e index (s ∷ ss) n

Have-holders :
    (e : LogEntry) (index : ℤ) (ss : List Slot)
    → AllHold index ss
    → Have e index ss (holders e index ss)
Have-holders e index [] all = no_more
Have-holders e index (s ∷ ss) all =
    let (on, held_here) = all 0 s refl in
    let (x, entry) = held_here in
    let rest = Have-holders e index ss (λ i. all (suc i)) in
    elim (Bool-cases (same_entry e x)) [
      | inl one ↦
          let equal : x ≡ e = sym ((same_entry_iff e x).0 one) in
          let count : suc (holders e index ss) ≡ holders e index (s ∷ ss) =
            rw (entry, one) (omega arith) in
          subst (Have e index (s ∷ ss)) count (same (entry ∙ ap ok equal) rest)
      | inr two ↦
          let count : holders e index ss ≡ holders e index (s ∷ ss) =
            rw (entry, two) (omega arith) in
          subst (Have e index (s ∷ ss)) count
            (other entry (λ q. ground (arith, (same_entry_iff e x).1 q, two)) rest)
    ]

-- There is one such number.
Have-holders_eq :
    {e : LogEntry} {index : ℤ} {ss : List Slot} {n : ℕ} → Have e index ss n → holders e index ss ≡ n
Have-holders_eq no_more = refl
Have-holders_eq {e} (same entry rest) =
    rw (entry, same_entry_refl e, Have-holders_eq rest) (omega arith)
Have-holders_eq {e} (other {x = x} entry apart rest) = elim (Bool-cases (same_entry e x)) [
  | inl one ↦ absurd (apart ((same_entry_iff e x).0 one))
  | inr two ↦ rw (entry, two, Have-holders_eq rest) (omega arith)
]

-- The largest number of replicas that have one entry at the index.
pub record IsMost (index : ℤ) (ss : List Slot) (c : ℕ) : Type 0 where
  pub bound : (e : LogEntry) (n : ℕ) → Have e index ss n → n ≤ c
  pub reached : (c ≡ 0) ⊎ ((e : LogEntry) × Have e index ss c)

-- When all replicas are active and have an entry at the index, `check_consensus` returns the
-- largest number of replicas that have one and the same entry there, equal in term, operation and
-- client.
pub check_consensus-IsMost :
    (index : ℤ) (ss : List Slot)
    → AllHold index ss
    → Returns (check_consensus index ss) (IsMost index ss)
unfolding check_consensus
check_consensus-IsMost index ss all =
    let (es, run, size, held) = collect-AllHold index ss all in
    let (c, run', _, most, found) =
      count_most-occurrences es es 0 0 (λ k. ap (get_elem? es) (omega arith)) in
    (
      c,
      rw (run, ← size) run',
      record {
        bound = λ e n have. elim (occurrences-place e es) [
          | inl nowhere ↦ omega (arith, held e, nowhere, Have-holders_eq have)
          | inr (k, at) ↦ omega (arith, held e, most k e at, Have-holders_eq have)
        ];
        reached = elim found [
          | inl nothing ↦ inl nothing
          | inr (e, count) ↦
              let total : holders e index ss ≡ c = held e ∙ count in
              inr (e, subst (Have e index ss) total (Have-holders e index ss all))
        ];
      },
    )

-- ===== src/Raft/Harness/Leaders.antt =====
-- What `count_leader`, `find_leader` and `check_terms` say of the replicas.
use distributed_dns.Base.{
  some_injective, ℕ, zero, suc, ◌+◌, ◌≤◌, ◌≡◌, ◌≢◌, ◌↔◌, inl, inr, refl, sym, ap, ◌∙◌, arith, true,
  false, Bool-cases, some, List, [], ◌∷◌, get_elem?, if◌then◌else◌, not, ◌&&◌,
}
use distributed_dns.Base.Int.{ℤ, pos, minus_one, eqb_ℤ, eqb_ℤ_iff}
use distributed_dns.Raft.Harness.{
  Slot, leads, count_loop, count_leader, find_loop, find_leader, terms_loop, check_terms,
}

abbrev pub term_of : Slot → ℤ
term_of s = s.replica.node.current_term

-- All active replicas have this term.
abbrev AllIn : ℤ → List Slot → Type 0
AllIn t ss = (i : ℕ) (s : Slot) → get_elem? ss i ≡ some s → s.active ≡ true → term_of s ≡ t

-- Two active replicas have the same term.
abbrev pub Agree : List Slot → Type 0
Agree ss =
    (i k : ℕ) (s u : Slot)
    → get_elem? ss i ≡ some s
    → get_elem? ss k ≡ some u
    → s.active ≡ true
    → u.active ≡ true
    → term_of s ≡ term_of u

abbrev pub NoneUnset : List Slot → Type 0
NoneUnset ss =
    (i : ℕ) (s : Slot) → get_elem? ss i ≡ some s → s.active ≡ true → term_of s ≢ minus_one

AllIn-cons :
    (t : ℤ) (s : Slot) (ss : List Slot)
    → (s.active ≡ true → term_of s ≡ t)
    → AllIn t ss
    → AllIn t (s ∷ ss)
AllIn-cons t s ss here rest zero u e on =
    let same : s ≡ u = some_injective e in rw (← same) (here (rw same on))
AllIn-cons t s ss here rest (suc i) u e on = rest i u e on

-- One step of the loop after a term was found.
terms_loop-step :
    (s : Slot) (ss : List Slot) (t : ℤ)
    → t ≢ minus_one
    → terms_loop (s ∷ ss) t
      ≡ (if s.active && not (eqb_ℤ t (term_of s)) then false else terms_loop ss t)
unfolding terms_loop
terms_loop-step s ss t ne =
    let set : eqb_ℤ t minus_one ≡ false = ground (arith, ne, eqb_ℤ_iff t minus_one) in
    elim (Bool-cases s.active) [ inl on ↦ rw (set, on) refl | inr off ↦ rw (set, off) refl ]

terms_loop-AllIn : (ss : List Slot) (t : ℤ) → t ≢ minus_one → terms_loop ss t ≡ true → AllIn t ss
terms_loop-AllIn [] t ne h = λ i s e on. ground arith
terms_loop-AllIn (s ∷ ss) t ne h =
    let run = sym (terms_loop-step s ss t ne) ∙ h in
    AllIn-cons t s ss (λ on. ground (arith, eqb_ℤ_iff t (term_of s)))
      (terms_loop-AllIn ss t ne (ground arith))

AllIn-terms_loop : (ss : List Slot) (t : ℤ) → t ≢ minus_one → AllIn t ss → terms_loop ss t ≡ true
unfolding terms_loop
AllIn-terms_loop [] t ne all = refl
AllIn-terms_loop (s ∷ ss) t ne all =
    let here = all 0 s refl in
    let rest = AllIn-terms_loop ss t ne (λ i. all (suc i)) in
    terms_loop-step s ss t ne ∙ ground (arith, eqb_ℤ_iff t (term_of s))

-- The loop before a term was found.
terms_loop-unset :
    (s : Slot) (ss : List Slot)
    → terms_loop (s ∷ ss) minus_one ≡ terms_loop ss (if s.active then term_of s else minus_one)
unfolding terms_loop
terms_loop-unset s ss = elim (Bool-cases s.active) [ inl on ↦ rw on refl | inr off ↦ rw off refl ]

check_loop-Agree : (ss : List Slot) → NoneUnset ss → (terms_loop ss minus_one ≡ true) ↔ Agree ss
unfolding terms_loop
check_loop-Agree [] set = (λ _ i k s u e e' on on'. ground arith, λ _. refl)
check_loop-Agree (s ∷ ss) set = elim (Bool-cases s.active) [
  | inl on ↦
      let ne = set 0 s refl on in
      let run : terms_loop (s ∷ ss) minus_one ≡ terms_loop ss (term_of s) =
        terms_loop-unset s ss ∙ rw on refl in
      (
        λ h i k a b e e' on' on''.
            let all =
              AllIn-cons (term_of s) s ss (λ _. refl)
                (terms_loop-AllIn ss (term_of s) ne (sym run ∙ h)) in
            all i a e on' ∙ sym (all k b e' on''),
        λ agree.
            run
            ∙ AllIn-terms_loop ss (term_of s) ne (λ i a e on'. agree (suc i) 0 a s e refl on' on),
      )
  | inr off ↦
      let run : terms_loop (s ∷ ss) minus_one ≡ terms_loop ss minus_one =
        terms_loop-unset s ss ∙ rw off refl in
      let rest = check_loop-Agree ss (λ i. set (suc i)) in
      (
        λ h. Agree-cons s ss off (rest.0 (sym run ∙ h)),
        λ agree. run ∙ rest.1 (λ i k. agree (suc i) (suc k)),
      )
]
  where
    Agree-cons : (s : Slot) (ss : List Slot) → s.active ≡ false → Agree ss → Agree (s ∷ ss)
    Agree-cons s ss off rest zero k a b e e' on on' =
        let same : s ≡ a = some_injective e in ground (arith, rw (← same) at on)
    Agree-cons s ss off rest (suc i) zero a b e e' on on' =
        let same : s ≡ b = some_injective e' in ground (arith, rw (← same) at on')
    Agree-cons s ss off rest (suc i) (suc k) a b e e' on on' = rest i k a b e e' on on'

-- `check_terms` is true exactly if any two active replicas have the same term, where no active one
-- has the term -1.
pub check_terms-Agree : (ss : List Slot) → NoneUnset ss → (check_terms ss ≡ true) ↔ Agree ss
unfolding check_terms
check_terms-Agree ss set = check_loop-Agree ss set

abbrev pub NoneLeads : List Slot → Type 0
NoneLeads ss = (i : ℕ) (s : Slot) → get_elem? ss i ≡ some s → leads s ≡ false

abbrev pub OneLeads : List Slot → Type 0
OneLeads ss =
    (i k : ℕ) (s u : Slot)
    → get_elem? ss i ≡ some s
    → get_elem? ss k ≡ some u
    → leads s ≡ true
    → leads u ≡ true
    → i ≡ k

count_loop-add : (ss : List Slot) (n : ℕ) → count_loop ss n ≡ n + count_loop ss 0
unfolding count_loop
count_loop-add [] n = omega arith
count_loop-add (s ∷ ss) n =
    let first = count_loop-add ss (if leads s then suc n else n) in
    let second = count_loop-add ss (if leads s then 1 else 0) in ground arith

count_loop-NoneLeads : (ss : List Slot) → NoneLeads ss → count_loop ss 0 ≡ 0
unfolding count_loop
count_loop-NoneLeads [] none_leads = refl
count_loop-NoneLeads (s ∷ ss) none_leads =
    rw (none_leads 0 s refl) (count_loop-NoneLeads ss (λ i. none_leads (suc i)))

NoneLeads-count_loop : (ss : List Slot) → count_loop ss 0 ≡ 0 → NoneLeads ss
unfolding count_loop
NoneLeads-count_loop [] h i s e = ground arith
NoneLeads-count_loop (s ∷ ss) h zero u e =
    let same : s ≡ u = some_injective e in
    let more = count_loop-add ss 1 in rw (← same) (ground (arith))
NoneLeads-count_loop (s ∷ ss) h (suc i) u e =
    let more = count_loop-add ss 1 in NoneLeads-count_loop ss (ground arith) i u e

count_leader-OneLeads : (ss : List Slot) → OneLeads ss → count_loop ss 0 ≤ 1
unfolding count_loop
count_leader-OneLeads [] one = omega arith
count_leader-OneLeads (s ∷ ss) one = elim (Bool-cases (leads s)) [
  | inl first ↦
      let others : NoneLeads ss = λ i u e. elim (Bool-cases (leads u)) [
        | inl second ↦ absurd (ground (arith, one 0 (suc i) s u refl e first second))
        | inr idle ↦ idle
      ] in
      rw first (omega (arith, count_loop-add ss 1, count_loop-NoneLeads ss others))
  | inr idle ↦ rw idle (
      count_leader-OneLeads ss
        (λ i k s u e e' l l'. ground (arith, one (suc i) (suc k) s u e e' l l')))
]

find_loop-NoneLeads : (ss : List Slot) (i : ℕ) (id : ℤ) → NoneLeads ss → find_loop i ss id ≡ id
unfolding find_loop
find_loop-NoneLeads [] i id none_leads = refl
find_loop-NoneLeads (s ∷ ss) i id none_leads =
    rw (none_leads 0 s refl) (find_loop-NoneLeads ss (suc i) id (λ k. none_leads (suc k)))

find_loop-only :
    (ss : List Slot) (i : ℕ) (id : ℤ) (k : ℕ) (s : Slot)
    → count_loop ss 0 ≡ 1
    → get_elem? ss k ≡ some s
    → leads s ≡ true
    → find_loop i ss id ≡ pos (i + k)
unfolding count_loop find_loop
find_loop-only [] i id k s one e l = ground arith
find_loop-only (u ∷ ss) i id zero s one e l =
    let same : u ≡ s = some_injective e in
    let first : leads u ≡ true = rw same l in
    let others = NoneLeads-count_loop ss (omega (arith, count_loop-add ss 1, rw first at one)) in
    rw first (find_loop-NoneLeads ss (suc i) (pos i) others ∙ ap pos (omega arith))
find_loop-only (u ∷ ss) i id (suc k) s one e l = elim (Bool-cases (leads u)) [
  | inl first ↦
      let others = NoneLeads-count_loop ss (omega (arith, count_loop-add ss 1, rw first at one)) in
      absurd (ground (arith, others k s e))
  | inr idle ↦
      rw idle (find_loop-only ss (suc i) id k s (rw idle at one) e l ∙ ap pos (omega arith))
]

-- Where `find_leader` and `count_leader` come out, when there is at most one leader.
pub find_leader-only :
    (ss : List Slot) (k : ℕ) (s : Slot)
    → OneLeads ss
    → get_elem? ss k ≡ some s
    → leads s ≡ true
    → (count_leader ss ≡ 1) × (find_leader ss ≡ pos k)
unfolding count_leader find_leader
find_leader-only ss k s one e l =
    let some_leads : count_loop ss 0 ≢ 0 = λ h. ground (arith, NoneLeads-count_loop ss h k s e) in
    let once : count_loop ss 0 ≡ 1 = omega (arith, some_leads, count_leader-OneLeads ss one) in
    (once, find_loop-only ss 0 minus_one k s once e l ∙ ap pos (omega arith))

pub count_leader-le : (ss : List Slot) → OneLeads ss → count_leader ss ≤ 1
unfolding count_leader
count_leader-le ss one = count_leader-OneLeads ss one

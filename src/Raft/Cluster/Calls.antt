-- ===== src/Raft/Cluster/Calls.antt =====
-- Changes of the calls of an election, and the majorities that they make.
use distributed_dns.Base.{
  ℕ, ◌+◌, ◌≤◌, ◌<◌, ◌≡◌, ◌≢◌, ◌⊎◌, inl, inr, refl, arith, Bool, false, put_at, sum, sum_eq,
  sum_change, ◌==◌, ◌&&◌, sym, ap, if◌then◌else◌, Bool-cases, not,
}
use distributed_dns.Base.Int.{ℤ, pos, ◌≤ℤ◌, eqb_ℤ}
use distributed_dns.Raft.Node.{candidate}
use distributed_dns.Raft.Cluster.Ballot.{Ballot, Call, idle, spawned}
use distributed_dns.Raft.Cluster.Invariant.{Calls, IsLive, IsSound, IsCast, weight, Inv}

-- The goroutine of `i` for `j` in the election of term `t`.
abbrev pub put_call : Calls → ℕ → ℤ → ℕ → Call → Calls
put_call calls i t j c k u = if i == k && eqb_ℤ t u then put_at (calls k u) j c else calls k u

abbrev pub put_count : (ℕ → ℤ → ℕ) → ℕ → ℤ → ℕ → ℕ → ℤ → ℕ
put_count received i t v k u = if i == k && eqb_ℤ t u then v else received k u

-- The goroutines that `StartElection` starts.
abbrev pub spawn : (ℕ → Bool) → ℕ → ℤ → Calls → Calls
spawn stub i t calls k u j =
    if i == k && (eqb_ℤ t u && (stub j && not (i == j))) then spawned else calls k u j

-- What holds of the calls and of the new one holds after the change.
put_call-all :
    (P : ℕ → ℤ → ℕ → Call → Type 0) (calls : Calls) (i : ℕ) (t : ℤ) (j : ℕ) (c : Call)
    → P i t j c
    → ((k : ℕ) (u : ℤ) (m : ℕ) → P k u m (calls k u m))
    → (k : ℕ) (u : ℤ) (m : ℕ) → P k u m (put_call calls i t j c k u m)
put_call-all P calls i t j c new old k u m = elim (Bool-cases (i == k && eqb_ℤ t u)) [
  | inl here ↦ elim (Bool-cases (j == m)) [
    | inl this ↦
        let e : i ≡ k = ground arith in
        let e' : t ≡ u = ground arith in
        let e'' : j ≡ m = ground arith in rw (here, this) (rw (e, e', e'') at new)
    | inr that ↦ rw (here, that) (old k u m)
  ]
  | inr there ↦ rw there (old k u m)
]

spawn-all :
    (P : ℕ → ℤ → ℕ → Call → Type 0) (stub : ℕ → Bool) (i : ℕ) (t : ℤ) (calls : Calls)
    → ((m : ℕ) → i ≢ m → P i t m spawned)
    → ((k : ℕ) (u : ℤ) (m : ℕ) → P k u m (calls k u m))
    → (k : ℕ) (u : ℤ) (m : ℕ) → P k u m (spawn stub i t calls k u m)
spawn-all P stub i t calls new old k u m =
    elim (Bool-cases (i == k && (eqb_ℤ t u && (stub m && not (i == m))))) [
      | inl here ↦
          let e : i ≡ k = ground arith in
          let e' : t ≡ u = ground arith in rw here (rw (e, e') at (new m (λ e''. ground arith)))
      | inr there ↦ rw there (old k u m)
    ]

-- An election in which no call is started keeps its sum.
spawn-sum :
    (n : ℕ) (stub : ℕ → Bool) (i : ℕ) (t : ℤ) (calls : Calls) (k : ℕ) (u : ℤ)
    → (i == k && eqb_ℤ t u) ≡ false
    → sum n (λ m. weight (spawn stub i t calls k u m)) ≡ sum n (λ m. weight (calls k u m))
spawn-sum n stub i t calls k u other =
    sum_eq n (λ m. weight (spawn stub i t calls k u m)) (λ m. weight (calls k u m))
      (λ m lt. ground arith)

module _ {n : ℕ} {bal : ℕ → Ballot} {calls : Calls} {received : ℕ → ℤ → ℕ}
    (inv : Inv n bal calls received) where
  open inv use {sound, others, cast, once, counted, won}

  module _ (i : ℕ) (t : ℤ) (j v : ℕ) (c : Call) where
    -- One call goes on: it becomes live only by a vote that the replica has just given.
    pub record Goes : Type 0 where
      pub not_self : i ≢ j
      pub within : j < n
      pub fine : IsSound i (bal i).term t c
      pub live :
          IsLive (bal i).term t c
          → IsLive (bal i).term t (calls i t j) ⊎ ((t ≡ (bal j).term) × ((bal j).voted ≡ pos i))
      pub votes : v + weight (calls i t j) ≤ received i t + weight c
      pub more : weight (calls i t j) ≤ weight c

    module _ (g : Goes) where
      -- The sums of the calls of an election, before and after.
      weights :
          (k : ℕ) (u : ℤ)
          → sum n (λ m. weight (put_call calls i t j c k u m))
              + (if i == k && eqb_ℤ t u then weight (calls i t j) else 0)
            ≡ sum n (λ m. weight (calls k u m)) + (if i == k && eqb_ℤ t u then weight c else 0)
      weights k u = elim (Bool-cases (i == k && eqb_ℤ t u)) [
        | inl here ↦
            let e : i ≡ k = ground arith in
            let e' : t ≡ u = ground arith in
            let same : calls i t j ≡ calls k u j = rw (e, e') refl in
            let at : weight (put_at (calls k u) j c j) ≡ weight c = ground arith in
            let change =
              sum_change n j (λ m. weight (put_at (calls k u) j c m)) (λ m. weight (calls k u m))
                g.within (λ m ne. ground arith) in
            rw here (omega (arith, ap weight same, at, change))
        | inr there ↦ rw there refl
      ]

      rival : IsLive (bal i).term t c → (k : ℕ) → IsLive (bal k).term t (calls k t j) → k ≡ i
      rival l k l' = elim (g.live l) [
        | inl before ↦ once k i t j l' before
        | inr given ↦ ground (arith, cast k t j l')
      ]

      IsCast-after :
          (k : ℕ) (u : ℤ) (m : ℕ)
          → IsLive (bal k).term u (put_call calls i t j c k u m)
          → IsCast (bal m) u k
      IsCast-after =
          put_call-all (λ k u m x. IsLive (bal k).term u x → IsCast (bal m) u k) calls i t j c
            (λ l. elim (g.live l) [ inl before ↦ cast i t j before | inr given ↦ inr given ]) cast

      once_old :
          (k : ℕ) (u : ℤ) (m : ℕ)
          → IsLive (bal k).term u (put_call calls i t j c k u m)
          → (k' : ℕ) → IsLive (bal k').term u (calls k' u m)
          → k ≡ k'
      once_old =
          put_call-all
            (λ k u m x.
              IsLive (bal k).term u x → (k' : ℕ) → IsLive (bal k').term u (calls k' u m) → k ≡ k')
            calls i t j c (λ l k' l'. sym (rival l k' l')) (λ k u m l k' l'. once k k' u m l l')

      once_new :
          (k : ℕ) (u : ℤ) (m : ℕ)
          → u ≡ t
          → m ≡ j
          → IsLive (bal k).term u (put_call calls i t j c k u m)
          → IsLive (bal i).term t c
          → k ≡ i
      once_new =
          put_call-all
            (λ k u m x. u ≡ t → m ≡ j → IsLive (bal k).term u x → IsLive (bal i).term t c → k ≡ i)
            calls i t j c (λ _ _ _ _. refl) (λ k u m e e' l l'. rival l' k (rw (e, e') at l))

      once_after :
          (k' : ℕ) (u : ℤ) (m : ℕ)
          → IsLive (bal k').term u (put_call calls i t j c k' u m)
          → (k : ℕ) → IsLive (bal k).term u (put_call calls i t j c k u m)
          → k ≡ k'
      once_after =
          put_call-all
            (λ k' u m y.
              IsLive (bal k').term u y
              → (k : ℕ) → IsLive (bal k).term u (put_call calls i t j c k u m)
              → k ≡ k')
            calls i t j c (λ l k l'. once_new k t j refl refl l' l)
            (λ k' u m l k l'. once_old k u m l' k' l)

      pub Goes-Inv : Inv n bal (put_call calls i t j c) (put_count received i t v)
      Goes-Inv = record {
        stands = inv.stands;
        leads = inv.leads;
        voters = inv.voters;
        sound = put_call-all (λ k u m x. IsSound k (bal k).term u x) calls i t j c g.fine sound;
        others = λ k u.
            put_call-all (λ k u m x. m ≡ k → x ≡ idle) calls i t j c
              (λ e. absurd (g.not_self (sym e))) (λ k u m e. rw e (others k u)) k u k refl;
        cast = IsCast-after;
        once = λ k k' u m l l'. once_after k' u m l' k l;
        counted = λ k u. ground (arith, counted k u, weights k u, g.votes, g.more);
        won = λ k l. ground (arith, won k l, weights k (bal k).term, g.more);
      }

  -- The calls of a new election have not counted anything yet.
  pub spawn-Inv :
      (stub : ℕ → Bool) (i : ℕ) (t : ℤ)
      → (bal i).state ≡ candidate
      → t ≤ℤ (bal i).term
      → Inv n bal (spawn stub i t calls) (put_count received i t 1)
  spawn-Inv stub i t stands le = record {
    stands = inv.stands;
    leads = inv.leads;
    voters = inv.voters;
    sound =
        spawn-all (λ k u m x. IsSound k (bal k).term u x) stub i t calls (λ m ne. omega arith)
          sound;
    others = λ k u.
        spawn-all (λ k u m x. m ≡ k → x ≡ idle) stub i t calls (λ m ne e. absurd (ne (sym e)))
          (λ k u m e. rw e (others k u)) k u k refl;
    cast =
        spawn-all (λ k u m x. IsLive (bal k).term u x → IsCast (bal m) u k) stub i t calls
          (λ m ne l. absurd l) cast;
    once = λ k k' u m l l'. once_spawn k' u m l' k l;
    counted = λ k u. elim (Bool-cases (i == k && eqb_ℤ t u)) [
      | inl here ↦ rw here (omega arith)
      | inr there ↦ rw (there, spawn-sum n stub i t calls k u there) (counted k u)
    ];
    won = λ k l. rw (spawn-sum n stub i t calls k (bal k).term (ground (arith))) (won k l);
  }
    where
      once_old :
          (k : ℕ) (u : ℤ) (m : ℕ)
          → IsLive (bal k).term u (spawn stub i t calls k u m)
          → (k' : ℕ) → IsLive (bal k').term u (calls k' u m)
          → k ≡ k'
      once_old =
          spawn-all
            (λ k u m x.
              IsLive (bal k).term u x → (k' : ℕ) → IsLive (bal k').term u (calls k' u m) → k ≡ k')
            stub i t calls (λ m ne l. absurd l) (λ k u m l k' l'. once k k' u m l l')

      once_spawn :
          (k' : ℕ) (u : ℤ) (m : ℕ)
          → IsLive (bal k').term u (spawn stub i t calls k' u m)
          → (k : ℕ) → IsLive (bal k).term u (spawn stub i t calls k u m)
          → k ≡ k'
      once_spawn =
          spawn-all
            (λ k' u m y.
              IsLive (bal k').term u y
              → (k : ℕ) → IsLive (bal k).term u (spawn stub i t calls k u m)
              → k ≡ k')
            stub i t calls (λ m ne l. absurd l) (λ k' u m l k l'. once_old k u m l' k' l)

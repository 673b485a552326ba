-- ===== src/Raft/Harness/Links/Laws.antt =====
-- The stubs after `disconnect` and `connect`.
use distributed_dns.Base.{
  ℕ, zero, suc, ◌+◌, ◌<◌, ◌≡◌, ◌≢◌, ◌⊎◌, inl, inr, refl, sym, ap, ◌∙◌, arith, Bool, true, false,
  Bool-cases, Option, Option-cases, none, some, ◌==◌, leb, ltb, not, ◌&&◌, ◌||◌, if◌then◌else◌,
}
use distributed_dns.Raft.Harness.Links.{Links, put, cut, mend, each_peer, disconnect, connect}

module _ {C : Type 0} where
  abbrev link : Links C → ℕ → ℕ → Option C × Option C
  link l a b = (l.clients a b, l.backup a b)

  abbrev pub or_else : Option C → Option C → Option C
  or_else none d = d
  or_else (some c) d = some c

  abbrev cut_link : Option C × Option C → Option C × Option C
  cut_link p = (none, or_else p.0 p.1)

  abbrev mend_link : Option C × Option C → Option C × Option C
  mend_link p = (or_else p.0 p.1, p.1)

  -- A change of one stub, seen at every place.
  abbrev Changes :
      (ℕ → ℕ → Links C → Links C) → (Option C × Option C → Option C × Option C) → Type 0
  Changes change f =
      (i j : ℕ) (l : Links C) (a b : ℕ)
      → link (change i j l) a b ≡ (if i == a && j == b then f (link l a b) else link l a b)

  cut-none : (i j : ℕ) (l : Links C) → l.clients i j ≡ none → cut i j l ≡ l
  unfolding cut
  cut-none i j l nil = rw (nil, cut) refl

  cut-some :
      (i j : ℕ) (l : Links C) {c : C}
      → l.clients i j ≡ some c
      → cut i j l ≡ record { clients = put l.clients i j none; backup = put l.backup i j (some c) }
  unfolding cut
  cut-some i j l stub = rw (stub, cut) refl

  mend-none :
      (i j : ℕ) (l : Links C)
      → l.clients i j ≡ none
      → mend i j l ≡ record l { clients = put l.clients i j (l.backup i j) }
  unfolding mend
  mend-none i j l nil = rw (nil, mend) refl

  mend-some : (i j : ℕ) (l : Links C) {c : C} → l.clients i j ≡ some c → mend i j l ≡ l
  unfolding mend
  mend-some i j l stub = rw (stub, mend) refl

  -- The place that is changed, and the others.
  place :
      (table : ℕ → ℕ → Option C) (i j a b : ℕ) → (i == a && j == b) ≡ true → table i j ≡ table a b
  place table i j a b here =
      let row : i ≡ a = ground arith in let column : j ≡ b = ground arith in rw (row, column) refl

  cut-Changes : Changes cut cut_link
  cut-Changes i j l a b = elim (Option-cases (l.clients i j)) [
    | inl nil ↦ rw (cut-none i j l nil) (elim (Bool-cases (i == a && j == b)) [
      | inl here ↦
          let nil' : l.clients a b ≡ none = sym (place l.clients i j a b here) ∙ nil in
          rw (here, nil') refl
      | inr there ↦ rw there refl
    ])
    | inr (c, stub) ↦ rw (cut-some i j l stub) (elim (Bool-cases (i == a && j == b)) [
      | inl here ↦
          let stub' : l.clients a b ≡ some c = sym (place l.clients i j a b here) ∙ stub in
          rw (here, stub') refl
      | inr there ↦ rw there refl
    ])
  ]

  mend-Changes : Changes mend mend_link
  mend-Changes i j l a b = elim (Option-cases (l.clients i j)) [
    | inl nil ↦ rw (mend-none i j l nil) (elim (Bool-cases (i == a && j == b)) [
      | inl here ↦
          let nil' : l.clients a b ≡ none = sym (place l.clients i j a b here) ∙ nil in
          rw (here, nil', place l.backup i j a b here) refl
      | inr there ↦ rw there refl
    ])
    | inr (c, stub) ↦ rw (mend-some i j l stub) (elim (Bool-cases (i == a && j == b)) [
      | inl here ↦
          let stub' : l.clients a b ≡ some c = sym (place l.clients i j a b here) ∙ stub in
          rw (here, stub') refl
      | inr there ↦ rw there refl
    ])
  ]

-- A change that is made once or twice.
either :
    {P : Type 0} (f : P → P) (x y z : P) (h k : Bool)
    → y ≡ (if h then f x else x)
    → z ≡ (if k then f y else y)
    → f (f x) ≡ f x
    → z ≡ (if h || k then f x else x)
either f x y z true true e e' twice = e' ∙ (ap f e ∙ twice)
either f x y z true false e e' twice = e' ∙ e
either f x y z false true e e' twice = e' ∙ ap f e
either f x y z false false e e' twice = e' ∙ e

-- The place is one of replica `i`'s round, or of one of the rounds from there on.
abbrev hit : ℕ → ℕ → ℕ → ℕ → ℕ → Bool
hit index self i a b = not (i == self) && ((index == a && i == b) || (i == a && index == b))

abbrev touched : ℕ → ℕ → ℕ → ℕ → ℕ → ℕ → Bool
touched index self left i a b =
    (index == a && (leb i b && (ltb b (i + left) && not (b == self))))
    || (index == b && (leb i a && (ltb a (i + left) && not (a == self))))

module _ {C : Type 0} (index self : ℕ) {change : ℕ → ℕ → Links C → Links C}
    {f : Option C × Option C → Option C × Option C} (changes : Changes change f)
    (again : (p : Option C × Option C) → f (f p) ≡ f p) where
  round-link :
      (i : ℕ) (l : Links C) (a b : ℕ)
      → link (if i == self then l else change i index (change index i l)) a b
        ≡ (if hit index self i a b then f (link l a b) else link l a b)
  round-link i l a b = elim (Bool-cases (i == self)) [
    | inl own ↦ rw own refl
    | inr other ↦ rw other (
        either f (link l a b) _ _ (index == a && i == b) (i == a && index == b)
          (changes index i l a b) (changes i index (change index i l) a b) (again (link l a b)))
  ]

  each_peer-link :
      (left i : ℕ) (l : Links C) (a b : ℕ)
      → link (each_peer change index self left i l) a b
        ≡ (if touched index self left i a b then f (link l a b) else link l a b)
  unfolding each_peer
  each_peer-link zero i l a b =
      let nothing : touched index self zero i a b ≡ false = ground arith in rw nothing refl
  each_peer-link (suc left) i l a b =
      let first : Links C = if i == self then l else change i index (change index i l) in
      let both : touched index self (suc left) i a b
          ≡ (hit index self i a b || touched index self left (suc i) a b) =
        ground arith in
      rw both (
        either f (link l a b) (link first a b) _ (hit index self i a b)
          (touched index self left (suc i) a b) (round-link i l a b)
          (each_peer-link left (suc i) first a b) (again (link l a b)))

module _ {C : Type 0} (n index : ℕ) where
  disconnect-link :
      (l : Links C) (a b : ℕ)
      → link (disconnect n index index l) a b
        ≡ (if touched index index n 0 a b then cut_link (link l a b) else link l a b)
  unfolding disconnect
  disconnect-link = each_peer-link index index {f = cut_link} cut-Changes (λ p. refl) n 0

  connect-link :
      (l : Links C) (a b : ℕ)
      → link (connect n index index l) a b
        ≡ (if touched index index n 0 a b then mend_link (link l a b) else link l a b)
  unfolding connect
  connect-link = each_peer-link index index {f = mend_link} mend-Changes mend_again n 0
    where
      mend_again : (p : Option C × Option C) → mend_link (mend_link p) ≡ mend_link p
      mend_again (none, none) = refl
      mend_again (none, some d) = refl
      mend_again (some c, d) = refl

  -- Nothing more is cut by the second time.
  disconnect-twice :
      (l : Links C) (a b : ℕ)
      → link (disconnect n index index (disconnect n index index l)) a b
        ≡ link (disconnect n index index l) a b
  disconnect-twice l a b =
      let once : Links C = disconnect n index index l in
      let second = disconnect-link once a b in
      elim (Bool-cases (touched index index n 0 a b)) [
        | inl here ↦
            let first : link once a b ≡ cut_link (link l a b) =
              disconnect-link l a b ∙ rw here refl in
            second ∙ (rw here refl ∙ (ap cut_link first ∙ sym first))
        | inr there ↦ second ∙ rw there refl
      ]

  reconnected :
      (l mid : Links C) (a b : ℕ)
      → link mid a b ≡ link (disconnect n index index l) a b
      → (l.clients a b ≢ none) ⊎ (l.backup a b ≡ none)
      → (connect n index index mid).clients a b ≡ l.clients a b
  reconnected l mid a b same has =
      let ended = connect-link mid a b in
      elim (Bool-cases (touched index index n 0 a b)) [
        | inl here ↦
            let was : link mid a b ≡ cut_link (link l a b) =
              same ∙ (disconnect-link l a b ∙ rw here refl) in
            ap (λ p. p.0) (ended ∙ (rw here refl ∙ ap mend_link was))
            ∙ either_one (l.clients a b) (l.backup a b) has
        | inr there ↦
            let was : link mid a b ≡ link l a b = same ∙ (disconnect-link l a b ∙ rw there refl) in
            ap (λ p. p.0) (ended ∙ (rw there refl ∙ was))
      ]
    where
      either_one : (c d : Option C) → (c ≢ none) ⊎ (d ≡ none) → or_else c d ≡ c
      either_one none d (inl ne) = absurd (ne refl)
      either_one none d (inr e) = e
      either_one (some c) d h = refl

  -- `connect` after `disconnect` of a replica, once or twice, leaves the stub of one replica for
  -- another as it was, if it is not nil or has no backup.
  pub connect-disconnect :
      (l : Links C) (a b : ℕ)
      → (l.clients a b ≢ none) ⊎ (l.backup a b ≡ none)
      → ((connect n index index (disconnect n index index l)).clients a b ≡ l.clients a b)
        × ((connect n index index (disconnect n index index (disconnect n index index l))).clients a
              b
            ≡ l.clients a b)
  connect-disconnect l a b has =
      (reconnected l _ a b refl has, reconnected l _ a b (disconnect-twice l a b) has)

  pub disconnect-Isolated :
      (l : Links C) (a : ℕ)
      → a < n
      → a ≢ index
      → ((disconnect n index index l).clients index a ≡ none)
        × ((disconnect n index index l).clients a index ≡ none)
        × ((b : ℕ) → b ≢ index → (disconnect n index index l).clients a b ≡ l.clients a b)
  disconnect-Isolated l a lt ne =
      let out : touched index index n 0 index a ≡ true = ground arith in
      let into : touched index index n 0 a index ≡ true = ground arith in
      let gone : link (disconnect n index index l) index a ≡ cut_link (link l index a) =
        disconnect-link l index a ∙ rw out refl in
      let gone' : link (disconnect n index index l) a index ≡ cut_link (link l a index) =
        disconnect-link l a index ∙ rw into refl in
      (
        ap (λ p. p.0) gone,
        ap (λ p. p.0) gone',
        λ b ne'.
            let other : touched index index n 0 a b ≡ false = ground arith in
            let stays : link (disconnect n index index l) a b ≡ link l a b =
              disconnect-link l a b ∙ rw other refl in
            ap (λ p. p.0) stays,
      )

-- ===== src/Raft/Append/Merge.antt =====
-- What the two loops of `AppendEntries` make of a log.
use distributed_dns.Base.{
  ℕ, zero, suc, ◌+◌, ◌≤◌, ◌<◌, ◌≡◌, ◌⊎◌, inl, inr, refl, sym, ap, ◌∙◌, some, List, [], ◌∷◌, ◌++◌,
  arith, Returns, length, get_elem?, set, length-append, length-set, get_elem?-set,
  get_elem?-append_left, get_elem?-append_last, get_elem?-of_ge, lt-of_get_elem?, lt→ltb, ◌==◌,
  ==_iff, Option-cases, Bool-cases,
}
use Prim.Native.Nat.{max}
use distributed_dns.Base.Int.{eqb_ℤ, eqb_ℤ_iff}
use distributed_dns.Raft.Protos.{LogEntry}
use distributed_dns.Raft.Append.{scan, put_entry, write_loop, merge}

-- `log'` is `log` with the entries `es` written from index `i` on.
pub record Written (log : List LogEntry) (i : ℕ) (es : List LogEntry) (log' : List LogEntry)
    : Type 0 where
  pub size : length log' ≡ max (length log) (i + length es)
  pub below : (j : ℕ) → j < i → get_elem? log' j ≡ get_elem? log j
  pub within : (j : ℕ) → j < length es → get_elem? log' (i + j) ≡ get_elem? es j
  pub above : (j : ℕ) → i + length es ≤ j → get_elem? log' j ≡ get_elem? log j

get_elem?-one : (e : LogEntry) (j : ℕ) → j < 1 → get_elem? (e ∷ []) j ≡ some e
get_elem?-one e zero h = refl
get_elem?-one e (suc j) h = absurd (omega arith)

put_entry-Written :
    (log : List LogEntry) (i : ℕ) (e : LogEntry)
    → i ≤ length log
    → Returns (put_entry log i e) (Written log i (e ∷ []))
unfolding put_entry
put_entry-Written log i e h = elim (Bool-cases (i == length log)) [
  | inl last ↦ (
    log ++ e ∷ [],
    rw last,
    record {
      size = rw (length-append log (e ∷ [])) (ground arith);
      below = λ j lt. get_elem?-append_left log (e ∷ []) j (ground arith);
      within = λ j lt.
          let here : i + j ≡ length log = ground arith in
          rw here (get_elem?-append_last log e ∙ sym (get_elem?-one e j lt));
      above = λ j ge.
          get_elem?-of_ge (log ++ e ∷ []) j
            (omega (arith, length-append log (e ∷ []), (==_iff i (length log)).0 last))
          ∙ sym (get_elem?-of_ge log j (omega (arith, (==_iff i (length log)).0 last)));
    },
  )
  | inr inside ↦ (
    set log i e,
    rw (inside, lt→ltb i (length log) (ground arith)),
    record {
      size = rw (length-set log i e) (ground arith);
      below = λ j lt. ground (arith, get_elem?-set log i j e);
      within = λ j lt. ground (arith, get_elem?-set log i (i + j) e, get_elem?-one e j);
      above = λ j ge. ground (arith, get_elem?-set log i j e);
    },
  )
]

-- One entry written, and then the entries after it.
Written-cons :
    {log mid log' : List LogEntry} (i : ℕ) (e : LogEntry) (es : List LogEntry)
    → Written log i (e ∷ []) mid
    → Written mid (suc i) es log'
    → Written log i (e ∷ es) log'
Written-cons {log} {mid} {log'} i e es first rest = record {
  size = omega (arith, first.size, rest.size);
  below = λ j lt. rest.below j (omega arith) ∙ first.below j lt;
  within = within';
  above = λ j ge. rest.above j (omega arith) ∙ first.above j (omega arith);
}
  where
    within' : (j : ℕ) → j < suc (length es) → get_elem? log' (i + j) ≡ get_elem? (e ∷ es) j
    within' zero lt = rest.below (i + 0) (omega arith) ∙ first.within 0 (omega arith)
    within' (suc j) lt = ap (get_elem? log') (omega arith) ∙ rest.within j (omega arith)

pub write_loop-Written :
    (log : List LogEntry) (i : ℕ) (es : List LogEntry)
    → i ≤ length log
    → Returns (write_loop log i es) (Written log i es)
unfolding write_loop
write_loop-Written log i [] h = (
  log,
  refl,
  record {
    size = omega arith;
    below = λ j lt. refl;
    within = λ j lt. absurd (omega arith);
    above = λ j ge. refl;
  },
)
write_loop-Written log i (e ∷ es) h =
    let (mid, run, first) = put_entry-Written log i e h in
    let (log', runs, rest) = write_loop-Written mid (suc i) es (omega (arith, first.size)) in
    (log', rw run runs, Written-cons i e es first rest)

-- An entry of the message stands in the new log, or the old log had an entry of its term there, which
-- stays.
abbrev pub Holds : List LogEntry → List LogEntry → ℕ → LogEntry → Type 0
Holds log log' k e =
    (get_elem? log' k ≡ some e)
    ⊎ ((x : LogEntry) × (get_elem? log k ≡ some x)
        × (get_elem? log' k ≡ some x)
        × (x.term ≡ e.term))

-- `log'` is `log` with the entries `es` merged from index `i` on. What is past them stays.
pub record Merged (log : List LogEntry) (i : ℕ) (es : List LogEntry) (log' : List LogEntry)
    : Type 0 where
  pub size : length log' ≡ max (length log) (i + length es)
  pub below : (j : ℕ) → j < i → get_elem? log' j ≡ get_elem? log j
  pub within : (j : ℕ) (e : LogEntry) → get_elem? es j ≡ some e → Holds log log' (i + j) e
  pub above : (j : ℕ) → i + length es ≤ j → get_elem? log' j ≡ get_elem? log j

Written-Merged :
    {log log' : List LogEntry} (i : ℕ) (es : List LogEntry)
    → Written log i es log'
    → Merged log i es log'
Written-Merged i es w = record {
  size = w.size;
  below = w.below;
  within = λ j e at. inl (w.within j (lt-of_get_elem? es j at) ∙ at);
  above = w.above;
}

-- An entry whose term is in the log already, and then the entries after it.
Merged-skip :
    {log log' : List LogEntry} (i : ℕ) (x e : LogEntry) (es : List LogEntry)
    → get_elem? log i ≡ some x
    → x.term ≡ e.term
    → Merged log (suc i) es log'
    → Merged log i (e ∷ es) log'
Merged-skip {log} {log'} i x e es at term m = record {
  size = omega (arith, m.size);
  below = λ j lt. m.below j (omega arith);
  within = within';
  above = λ j ge. m.above j (omega arith);
}
  where
    within' : (j : ℕ) (f : LogEntry) → get_elem? (e ∷ es) j ≡ some f → Holds log log' (i + j) f
    within' zero f eq =
        let here : i + 0 ≡ i = omega arith in
        inr (x, rw here at, rw here (m.below i (omega arith) ∙ at), ground arith)
    within' (suc j) f eq =
        let here : i + suc j ≡ suc i + j = omega arith in rw here (m.within j f eq)

-- Both loops together do not panic, and merge the entries into the log.
pub merge-Merged :
    (log : List LogEntry) (i : ℕ) (es : List LogEntry)
    → i ≤ length log
    → Returns (merge log i es) (Merged log i es)
unfolding merge
merge-Merged log i [] h =
    let (log', run, w) = write_loop-Written log i [] h in (log', run, Written-Merged i [] w)
merge-Merged log i (e ∷ es) h = elim (Option-cases (get_elem? log i)) [
  | inl end ↦
      let (log', run, w) = write_loop-Written log i (e ∷ es) h in
      (log', rw (end, scan) run, Written-Merged i (e ∷ es) w)
  | inr (x, at) ↦ elim (Bool-cases (eqb_ℤ x.term e.term)) [
    | inl same ↦
        let (log', run, m) = merge-Merged log (suc i) es (lt-of_get_elem? log i at) in
        (
          log',
          rw (at, scan, same) run,
          Merged-skip i x e es at ((eqb_ℤ_iff x.term e.term).0 same) m,
        )
    | inr other ↦
        let (log', run, w) = write_loop-Written log i (e ∷ es) h in
        (log', rw (at, scan, other) run, Written-Merged i (e ∷ es) w)
  ]
]

-- ===== src/Raft/Replicate/Converge.antt =====
-- `LeaderSendAE` against a replica that answers by `AppendEntries`, over a connection that can lose
-- calls.
use distributed_dns.Base.{
  ℕ, zero, suc, ◌≤◌, ◌<◌, ◌≡◌, ◌≢◌, ◌⊎◌, inl, inr, refl, sym, ◌∙◌, Bool, true, false, Option, some,
  List, arith, ok, Returns, drop, length, length-set, set, get_elem?-set_self, get_elem?-set_other,
  get_elem?,
}
use distributed_dns.Base.Int.{ℤ, pos, add32}
use distributed_dns.Raft.Protos.{AppendEntriesMessage, AppendEntriesResponse}
use distributed_dns.Raft.Node.{Replica}
use distributed_dns.Raft.Invariant.{start_of, Consistent}
use distributed_dns.Raft.Append.Laws.{append_entries-refused}
use distributed_dns.Raft.Append.Safety.{
  Consistent-cases, append_entries-agree, append_entries-IsWellFormed,
}
use distributed_dns.Raft.Replicate.{return, handle_reply, handle_success, send_loop, write_at_lem}
pub use distributed_dns.Raft.Replicate.Connection.{
  Fate, arrives, request_lost, reply_lost, Link, fate_of, carry, answer, answer-carry, AllArrive,
  lossless, lossless-AllArrive, AllArrive-drop, AllArrive-fate_of, Fate-cases,
}
use distributed_dns.Raft.Replicate.Retry.{
  Leads, Reaches, Follows, with_next, not-newer, Reaches-IsSane, refusal_retries, with_next-Leads,
}

abbrev pub with_both : Replica → List ℤ → List ℤ → Replica
with_both w nexts matches = record w {
  node = record w.node { next_index = nexts; match_index = matches };
}

-- The end of the exchange: a success, the index recorded as replicated, and the leader's entries on
-- the replica at every index up to it; or a call was lost. Of the leader only the two indices of this
-- replica change.
pub record Delivered (w : Replica) (id upper : ℕ) (fates : List Fate)
    (r : Option (Bool × Replica × Link)) : Type 0 where
  pub outcome : Bool
  pub nexts : List ℤ
  pub matches : List ℤ
  pub link_after : Link
  pub result : r ≡ some (outcome, with_both w nexts matches, link_after)
  pub next_size : length nexts ≡ length w.node.next_index
  pub match_size : length matches ≡ length w.node.match_index
  pub elsewhere : (j : ℕ) → j ≢ id → get_elem? nexts j ≡ get_elem? w.node.next_index j
  pub ends :
      ((outcome ≡ true)
        × (get_elem? matches id ≡ some (pos upper))
        × ((j : ℕ) → j ≤ upper → get_elem? link_after.0.node.log j ≡ get_elem? w.node.log j))
      ⊎ ((outcome ≡ false) × (¬ AllArrive fates))

-- The branch for a success.
success_run :
    (w : Replica) (id upper : ℕ) (msg : AppendEntriesMessage) (response : AppendEntriesResponse)
    → response.success ≡ true
    → response.term ≡ w.node.current_term
    → Leads w id upper
    → handle_reply id (pos upper) msg response w
      ≡ ok (
          return true (
            with_both w
              (set w.node.next_index id (add32 (pos upper) (pos 1)))
              (set w.node.match_index id (pos upper))))
unfolding handle_reply handle_success
success_run w id upper msg response s t l = simp (
  s,
  t,
  not-newer w.node.current_term,
  write_at_lem w.node.next_index id (add32 (pos upper) (pos 1)) l.next,
  write_at_lem w.node.match_index id (pos upper) l.match,
)

-- A call is lost.
lost :
    (w : Replica) (id upper : ℕ) (fates : List Fate) (link : Link)
    → fate_of fates ≢ arrives
    → Delivered w id upper fates (some (false, w, link))
lost w id upper fates link ne = record {
  outcome = false;
  nexts = w.node.next_index;
  matches = w.node.match_index;
  link_after = link;
  result = refl;
  next_size = refl;
  match_size = refl;
  elsewhere = λ j other. refl;
  ends = inr (refl, λ all. ne (AllArrive-fate_of fates all));
}

round_lost :
    (fuel : ℕ) (id upper : ℕ) (msg : AppendEntriesMessage) (w f : Replica) (fates : List Fate)
    → Leads w id upper
    → Reaches w upper msg
    → Follows w f
    → (fate_of fates ≡ request_lost) ⊎ (fate_of fates ≡ reply_lost)
    → Returns
        (send_loop answer (suc fuel) id (pos upper) msg w (f, fates))
        (Delivered w id upper fates)
unfolding send_loop
round_lost fuel id upper msg w f fates l r k (inl e) = (
  some (false, w, (f, drop 1 fates)),
  simp (answer-carry msg f fates e),
  lost w id upper fates (f, drop 1 fates) (λ e'. other (sym e ∙ e')),
)
  where
    other : request_lost ≢ arrives
    other e' = cc
round_lost fuel id upper msg w f fates l r k (inr e) =
    let ((f', response), run, _) = append_entries-IsWellFormed msg f k.valid (Reaches-IsSane l r) in
    (
      some (false, w, (f', drop 1 fates)),
      simp (answer-carry msg f fates e, run),
      lost w id upper fates (f', drop 1 fates) (λ e'. other (sym e ∙ e')),
    )
  where
    other : reply_lost ≢ arrives
    other e' = cc

-- A round that the replica accepts is the last.
round_accepted :
    (fuel : ℕ) (id upper : ℕ) (msg : AppendEntriesMessage) (w f : Replica) (fates : List Fate)
    → Leads w id upper
    → Reaches w upper msg
    → Follows w f
    → fate_of fates ≡ arrives
    → Consistent f.node.log msg
    → Returns
        (send_loop answer (suc fuel) id (pos upper) msg w (f, fates))
        (Delivered w id upper fates)
unfolding send_loop
round_accepted fuel id upper msg w f fates l r k fate c =
    let ((f', response), run, (success, reply, agree)) =
      append_entries-agree msg f k.valid (Reaches-IsSane l r) w.node.log (rw r.term k.term)
        k.matching r.copied c in
    let done = success_run w id upper msg response success (reply ∙ r.term) l in
    let nexts = set w.node.next_index id (add32 (pos upper) (pos 1)) in
    let matches = set w.node.match_index id (pos upper) in
    (
      some (true, with_both w nexts matches, (f', drop 1 fates)),
      simp (answer-carry msg f fates fate, run, done),
      record {
        outcome = true;
        nexts = nexts;
        matches = matches;
        link_after = (f', drop 1 fates);
        result = refl;
        next_size = length-set w.node.next_index id (add32 (pos upper) (pos 1));
        match_size = length-set w.node.match_index id (pos upper);
        elsewhere = λ j ne.
            get_elem?-set_other w.node.next_index id j (add32 (pos upper) (pos 1)) l.next ne;
        ends = inl (
          refl,
          get_elem?-set_self w.node.match_index id (pos upper) l.match,
          λ j le. agree j (omega (arith, r.upto)),
        );
      },
    )

-- What was delivered after a round that only lowered an index.
Delivered-with_next :
    {w : Replica} {id upper : ℕ} {fates : List Fate} {r : Option (Bool × Replica × Link)}
    (nexts : List ℤ)
    → length nexts ≡ length w.node.next_index
    → ((j : ℕ) → j ≢ id → get_elem? nexts j ≡ get_elem? w.node.next_index j)
    → Delivered (with_next w nexts) id upper (drop 1 fates) r
    → Delivered w id upper fates r
Delivered-with_next {fates = fates} nexts size others d = record {
  outcome = d.outcome;
  nexts = d.nexts;
  matches = d.matches;
  link_after = d.link_after;
  result = d.result;
  next_size = d.next_size ∙ size;
  match_size = d.match_size;
  elsewhere = λ j ne. d.elsewhere j ne ∙ others j ne;
  ends = elim d.ends [
    | inl done ↦ inl done
    | inr (failed, some_lost) ↦ inr (failed, λ all. some_lost (AllArrive-drop fates all))
  ];
}

-- A round that the replica refuses leaves the rest to the next round.
round_refused :
    (fuel : ℕ) (id upper : ℕ) (msg : AppendEntriesMessage) (w f : Replica) (fates : List Fate)
    → Leads w id upper
    → Reaches w upper msg
    → Follows w f
    → start_of msg.prev_log_index < suc fuel
    → fate_of fates ≡ arrives
    → ¬ Consistent f.node.log msg
    → ((msg' : AppendEntriesMessage) (w' f' : Replica) (fates' : List Fate)
        → Leads w' id upper
        → Reaches w' upper msg'
        → Follows w' f'
        → start_of msg'.prev_log_index < fuel
        → Returns
            (send_loop answer fuel id (pos upper) msg' w' (f', fates'))
            (Delivered w' id upper fates'))
    → Consistent w.node.log msg
    → Returns
        (send_loop answer (suc fuel) id (pos upper) msg w (f, fates))
        (Delivered w id upper fates)
unfolding send_loop
round_refused fuel id upper msg w f fates l r k h fate c next_round (inl first) =
    absurd (c (inl first))
round_refused fuel id upper msg w f fates l r k h fate c next_round (inr (p, e, prev, at, term)) =
    let ((f', response), run, (refused, reply, log, commit, applied, term', durable)) =
      append_entries-refused msg f k.valid (Reaches-IsSane l r) (rw r.term k.term) c in
    let start : start_of msg.prev_log_index ≡ suc p = rw prev in
    let (nexts, msg', again, size, others, start', r') =
      refusal_retries l msg response refused (reply ∙ r.term) p prev (omega (arith, r.upto)) in
    let (result, runs, d) =
      next_round msg' (with_next w nexts) f' (drop 1 fates) (with_next-Leads nexts l size)
        (record { term = r'.term; copied = r'.copied; upto = r'.upto })
        (record {
          valid = record {
            fits = rw log k.valid.fits;
            applied = rw applied k.valid.applied;
            ordered = rw (applied, commit) k.valid.ordered;
            within = rw (commit, log) k.valid.within;
          };
          term = rw (term', r.term) (omega arith);
          matching = rw log k.matching;
        })
        (omega arith) in
    (
      result,
      simp (answer-carry msg f fates fate, run, again, runs),
      Delivered-with_next nexts size others d,
    )

pub send_loop-Delivered :
    (fuel : ℕ) (id upper : ℕ) (msg : AppendEntriesMessage) (w f : Replica) (fates : List Fate)
    → Leads w id upper
    → Reaches w upper msg
    → Follows w f
    → start_of msg.prev_log_index < fuel
    → Returns (send_loop answer fuel id (pos upper) msg w (f, fates)) (Delivered w id upper fates)
send_loop-Delivered zero id upper msg w f fates l r k h = absurd (omega arith)
send_loop-Delivered (suc fuel) id upper msg w f fates l r k h = elim (Fate-cases (fate_of fates)) [
  | inr bad ↦ round_lost fuel id upper msg w f fates l r k bad
  | inl fate ↦ elim (Consistent-cases f.node.log msg k.valid.fits (Reaches-IsSane l r).prev) [
    | inl c ↦ round_accepted fuel id upper msg w f fates l r k fate c
    | inr c ↦
        round_refused fuel id upper msg w f fates l r k h fate c (send_loop-Delivered fuel id upper)
          r.copied.prev
  ]
]

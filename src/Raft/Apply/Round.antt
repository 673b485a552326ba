-- ===== src/Raft/Apply/Round.antt =====
-- A round of `ApplyToStateMachine`: how far it applies.
use distributed_dns.Base.{
  ℕ, zero, suc, ◌+◌, ◌-◌, ◌≤◌, ◌<◌, ◌^◌, ◌≡◌, refl, ap, ◌∙◌, arith, Bool, Option, List, [], ◌∷◌, ok,
  Returns, length, take, drop,
}
use distributed_dns.Base.Int.{
  ℤ, pos, negsuc, minus_one, ◌≤ℤ◌, ◌<ℤ◌, add32, add32-pos, add32-minus_one, wrap32, ◌+ℤ◌,
}
use distributed_dns.Raft.Protos.{LogEntry}
use distributed_dns.Raft.Node.{Replica, persist}
use distributed_dns.Raft.Persist.{persist-IsDurable}
use distributed_dns.Raft.Invariant.{IsWellFormed, IsDurable, start_of}
use distributed_dns.Raft.Apply.{StoreRequest, slice, apply_commits}
use distributed_dns.Raft.Apply.Laws.{AllOperations, Applies, apply_loop-Applies}

AllOperations-drop :
    (n : ℕ) (es : List LogEntry) (rs : List (Option StoreRequest))
    → AllOperations es rs
    → AllOperations (drop n es) (drop n rs)
AllOperations-drop zero es rs h = h
AllOperations-drop (suc n) [] [] h = tt
AllOperations-drop (suc n) [] (r ∷ rs) h = absurd h
AllOperations-drop (suc n) (e ∷ es) [] h = absurd h
AllOperations-drop (suc n) (e ∷ es) (r ∷ rs) h = AllOperations-drop n es rs h.1

AllOperations-take :
    (n : ℕ) (es : List LogEntry) (rs : List (Option StoreRequest))
    → AllOperations es rs
    → AllOperations (take n es) (take n rs)
AllOperations-take zero es rs h = tt
AllOperations-take (suc n) [] [] h = tt
AllOperations-take (suc n) [] (r ∷ rs) h = absurd h
AllOperations-take (suc n) (e ∷ es) [] h = absurd h
AllOperations-take (suc n) (e ∷ es) (r ∷ rs) h = (h.0, AllOperations-take n es rs h.1)

length-take-le : (n : ℕ) (rs : List (Option StoreRequest)) → length (take n rs) ≤ n
length-take-le zero rs = omega arith
length-take-le (suc n) [] = omega arith
length-take-le (suc n) (r ∷ rs) = omega (arith, length-take-le n rs)

-- An index moved forward, within the range.
add32-start_of :
    (a : ℤ) (k : ℕ)
    → minus_one ≤ℤ a
    → start_of a + k < 2 ^ 31 - 1
    → (start_of (add32 a (pos k)) ≡ start_of a + k) × (minus_one ≤ℤ add32 a (pos k))
unfolding add32 wrap32 ◌+ℤ◌
add32-start_of (pos p) k h lt = (ground arith, ground arith)
add32-start_of (negsuc zero) zero h lt = (refl, omega arith)
add32-start_of (negsuc zero) (suc k) h lt = (ground arith, ground arith)
add32-start_of (negsuc (suc n)) k h lt = absurd (omega arith)

add32-one-start_of :
    (a : ℤ) → minus_one ≤ℤ a → start_of a < 2 ^ 31 - 1 → add32 a (pos 1) ≡ pos (start_of a)
add32-one-start_of (pos p) h lt = add32-pos p 1 (omega arith) ∙ ap pos (omega arith)
add32-one-start_of (negsuc zero) h lt = add32-minus_one
add32-one-start_of (negsuc (suc n)) h lt = absurd (omega arith)

pub start_of-le : (c : ℤ) (n : ℕ) → c <ℤ pos n → start_of c ≤ n
start_of-le (pos p) n h = omega arith
start_of-le (negsuc p) n h = omega arith

start_of-order : (a b : ℤ) → minus_one ≤ℤ a → minus_one ≤ℤ b → start_of a ≤ start_of b → a ≤ℤ b
start_of-order (pos p) (pos q) h k le = omega arith
start_of-order (pos p) (negsuc q) h k le = absurd (omega arith)
start_of-order (negsuc p) b h k le = omega arith

slice_lem :
    (log : List LogEntry) (lo k : ℕ)
    → lo + k ≤ length log
    → slice log (pos lo) (pos (lo + k)) ≡ ok (take k (drop lo log))
unfolding slice
slice_lem log lo k h =
    let n : lo + k - lo ≡ k = omega arith in ground (arith, ap (λ i. take i (drop lo log)) n)

module _ {S : Type 0} (http : StoreRequest → S → S × Bool) where
  -- What a round leaves: `done` of the requests were applied, and the index moved by as many.
  pub record Round (k : ℕ) (rs : List (Option StoreRequest)) (w : Replica) (s : S) (r : Replica × S)
      : Type 0 where
    pub done : ℕ
    pub applies : Applies http (take k (drop (start_of w.node.last_applied) rs)) s (r.1, done)
    pub moved : start_of r.0.node.last_applied ≡ start_of w.node.last_applied + done
    pub valid : IsWellFormed r.0.node
    pub durable : IsDurable r.0

  -- A round of `ApplyToStateMachine` for no more entries than are committed and not applied, at a
  -- well-formed replica whose entries are all operations, returns: the requests of the next entries
  -- are sent as far as they succeed, `lastApplied` moves by the number that succeeded, and the
  -- replica is well-formed and in its file.
  pub apply_commits-Round :
      (k : ℕ) (w : Replica) (rs : List (Option StoreRequest)) (s : S)
      → IsWellFormed w.node
      → AllOperations w.node.log rs
      → start_of w.node.last_applied + k ≤ start_of w.node.commit_index
      → Returns (apply_commits http (pos k) w s) (Round k rs w s)
  unfolding apply_commits
  apply_commits-Round k w rs s wf all within =
      let a : ℤ = w.node.last_applied in
      let room : start_of w.node.commit_index ≤ length w.node.log =
        start_of-le w.node.commit_index (length w.node.log) wf.within in
      let (end, low) = add32-start_of a k wf.applied (omega (arith, wf.fits)) in
      let ((s', n), run, applies) =
        apply_loop-Applies http (take k (drop (start_of a) w.node.log))
          (take k (drop (start_of a) rs)) s
          (AllOperations-take k _ _ (AllOperations-drop (start_of a) w.node.log rs all)) in
      let few : n ≤ k = omega (arith, applies.bound, length-take-le k (drop (start_of a) rs)) in
      let (moved, low') = add32-start_of a n wf.applied (omega (arith, wf.fits)) in
      let lo : add32 a (pos 1) ≡ pos (start_of a) =
        add32-one-start_of a wf.applied (omega (arith, wf.fits)) in
      let hi : add32 (add32 a (pos k)) (pos 1) ≡ pos (start_of a + k) =
        add32-one-start_of (add32 a (pos k)) low (rw end (omega (arith, wf.fits))) ∙ ap pos end in
      let after : Replica =
        persist (record w { node = record w.node { last_applied = add32 a (pos n) } }) in
      let part = slice_lem w.node.log (start_of a) k (omega arith) in
      (
        (after, s'),
        rw (hi, lo, part, run),
        record {
          done = n;
          applies = applies;
          moved = moved;
          valid = record {
            fits = wf.fits;
            applied = low';
            ordered =
                start_of-order (add32 a (pos n)) w.node.commit_index low'
                  (omega (arith, wf.applied, wf.ordered)) (rw moved (omega arith));
            within = wf.within;
          };
          durable =
              persist-IsDurable
                (record w { node = record w.node { last_applied = add32 a (pos n) } });
        },
      )

-- ===== src/Raft/Apply/Laws.antt =====
-- What the store gets of the log.
use distributed_dns.Base.{
  ℕ, suc, ◌≤◌, ◌≡◌, ◌⊎◌, inl, inr, refl, ap, Bool, true, false, Option, none, some, List, [], ◌∷◌,
  arith, ok, Returns, length, take, drop, Bool-cases, str_eq, GoString,
}
use distributed_dns.Base.Int.{ℤ}
use distributed_dns.Raft.Protos.{LogEntry}
use distributed_dns.Raft.Client.{post_op, put_op, delete_op, no_op_op}
use distributed_dns.Raft.Apply.{
  StoreRequest, post_request, put_request, delete_request, request_of, perform, apply_loop,
}

-- The entries that the handlers of the Raft server and `ToLeader` write.
pub data IsOperation : List GoString → Option StoreRequest → Type 0 where
  is_post : (k v : GoString) → IsOperation (post_op ∷ k ∷ v ∷ []) (some (post_request k v))
  is_put : (k v : GoString) → IsOperation (put_op ∷ k ∷ v ∷ []) (some (put_request k v))
  is_delete : (k : GoString) → IsOperation (delete_op ∷ k ∷ []) (some (delete_request k))
  is_no_op : IsOperation (no_op_op ∷ []) none

pub request_of_lem :
    {op : List GoString} {r : Option StoreRequest}
    → IsOperation op r
    → (t : ℤ) (c : GoString) → request_of (record { term = t; operation = op; clientid = c }) ≡ ok r
unfolding request_of str_eq
request_of_lem (is_post k v) t c = refl
request_of_lem (is_put k v) t c = refl
request_of_lem (is_delete k) t c = refl
request_of_lem is_no_op t c = refl

-- Every entry is an operation with its request.
abbrev pub AllOperations : List LogEntry → List (Option StoreRequest) → Type 0
AllOperations [] [] = Unit
AllOperations (e ∷ es) (r ∷ rs) = IsOperation e.operation r × AllOperations es rs
AllOperations _ _ = ⊥

module _ {S : Type 0} (http : StoreRequest → S → S × Bool) where
  -- The store after a sequence of requests without an error.
  abbrev pub after : List (Option StoreRequest) → S → S
  after [] s = s
  after (r ∷ rs) s = after rs (perform http r s).0

  abbrev pub AllSucceed : List (Option StoreRequest) → S → Type 0
  AllSucceed [] s = Unit
  AllSucceed (r ∷ rs) s = ((perform http r s).1 ≡ true) × AllSucceed rs (perform http r s).0

  -- The loop does not panic. It sends the requests of the entries in the order of the log, up to the
  -- first that fails: what it counts as applied succeeded, and where it stops early the next fails.
  pub record Applies (rs : List (Option StoreRequest)) (s : S) (r : S × ℕ) : Type 0 where
    pub bound : r.1 ≤ length rs
    pub succeed : AllSucceed (take r.1 rs) s
    pub stop :
        ((r.1 ≡ length rs) × (r.0 ≡ after rs s))
        ⊎ ((q : Option StoreRequest) × (qs : List (Option StoreRequest)) × (drop r.1 rs ≡ q ∷ qs)
            × ((perform http q (after (take r.1 rs) s)).1 ≡ false)
            × (r.0 ≡ (perform http q (after (take r.1 rs) s)).0))

  -- The loop over entries that are all operations does not panic: it sends their requests in the
  -- order of the log, up to and with the first that fails, counts those before it, all of which
  -- succeeded, and leaves the store as these requests make it.
  pub apply_loop-Applies :
      (es : List LogEntry) (rs : List (Option StoreRequest)) (s : S)
      → AllOperations es rs
      → Returns (apply_loop http es s) (Applies rs s)
  unfolding apply_loop
  apply_loop-Applies [] [] s h =
      ((s, 0), refl, record { bound = omega arith; succeed = tt; stop = inl (refl, refl) })
  apply_loop-Applies [] (r ∷ rs) s h = absurd h
  apply_loop-Applies (e ∷ es) [] s h = absurd h
  apply_loop-Applies (e ∷ es) (r ∷ rs) s (op, ops) =
      let ((s', k), run, a) = apply_loop-Applies es rs (perform http r s).0 ops in
      let sent = request_of_lem op e.term e.clientid in
      elim (Bool-cases (perform http r s).1) [
        | inl fine ↦ (
          (s', suc k),
          rw (sent, fine, run),
          record {
            bound = omega (arith, a.bound);
            succeed = (fine, a.succeed);
            stop = elim a.stop [ inl (all, end) ↦ inl (ap suc all, end) | inr halted ↦ inr halted ];
          },
        )
        | inr failed ↦ (
          ((perform http r s).0, 0),
          rw (sent, failed),
          record { bound = omega arith; succeed = tt; stop = inr (r, rs, refl, failed, refl) },
        )
      ]

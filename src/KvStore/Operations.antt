-- ===== src/KvStore/Operations.antt =====
-- The table operations against the map that View.antt reads out of the table.
use distributed_dns.Base.{
  ◌≡◌, refl, sym, ap, ◌∙◌, Option, none, some, arith, GoString, str_eq_iff, length, Returns,
}
use distributed_dns.KvStore.Hash.{hash, buckets}
use distributed_dns.KvStore.LinkedList.{
  Linkedlist, add, remove, find, count, found, count-of_find, remove-found, find-remove,
  count-remove-le,
}
use distributed_dns.KvStore.Store.{
  Store, or_new, push, put_loop, put_chain, put, delete_chain, delete,
}
use distributed_dns.KvStore.View.{
  nodes, nodes_at, view, IsValid, chain_ok, find-put_loop, count-put_loop, put_loop-found, Writes,
  with_chain, with_chain-Writes, with_chain-IsValid,
}

nodes-or_new : (c : Option Linkedlist) → (or_new c).head ≡ nodes c
nodes-or_new none = refl
nodes-or_new (some ll) = refl

-- A store left as it is writes what it holds.
Writes-same :
    {kv : Store} (k : GoString) {v : Option GoString}
    → length kv.db ≡ buckets
    → view kv k ≡ v
    → Writes kv k v kv
Writes-same {kv} k h e = record {
  sized = h;
  view = λ j. ground (arith, str_eq_iff k j);
  same_file = refl;
  same_temp = refl;
}

-- A write that keeps the table valid.
abbrev pub Keeps : Store → GoString → Option GoString → Store → Type 0
Keeps kv k v kv' = Writes kv k v kv' × IsValid kv'

-- The outcome of `Put`: the new value, if the key is there.
abbrev pub after_put : GoString → Option GoString → Option GoString
after_put v none = none
after_put v (some _) = some v

module _ (kv : Store) (k : GoString) (valid : IsValid kv) where
  -- `Push` of a missing key does not panic, adds the key and keeps every other.
  pub push-Keeps : (v : GoString) → view kv k ≡ none → Returns (push k v kv) (Keeps kv k (some v))
  unfolding push view
  push-Keeps v absent =
      let (c, e, n) = chain_ok kv k valid.sized in
      let ll = add k v (or_new c) in
      (
        with_chain kv k (some v) ll,
        rw e,
        (
          with_chain-Writes kv k (some v) ll valid.sized
              (λ j same. unfold add find in rw (n, nodes-or_new c)),
          with_chain-IsValid kv k (some v) ll valid (λ j same.
              unfold add count in
              ground (
                arith,
                nodes-or_new c,
                count-of_find k (nodes_at kv.db (hash k)),
                valid.unique j,
                str_eq_iff k j,
                n,
                ap (nodes_at kv.db) same,
              )),
        ),
      )

  put_chain-Keeps :
      (v : GoString) (c : Option Linkedlist)
      → nodes_at kv.db (hash k) ≡ nodes c
      → ((put_chain k v kv c).1 ≡ found (view kv k))
        × Keeps kv k (after_put v (view kv k)) (put_chain k v kv c).0
  unfolding view
  put_chain-Keeps v none n =
      let absent : view kv k ≡ none = rw n (unfold find in refl) in
      (rw absent, (Writes-same k valid.sized (absent ∙ sym (ap (after_put v) absent)), valid))
  put_chain-Keeps v (some ll) n =
      let changed : Linkedlist = record ll { head = (put_loop k v ll.head).0 } in
      (
        rw n (put_loop-found k v ll.head),
        (
          with_chain-Writes kv k (after_put v (view kv k)) changed valid.sized
              (λ j same. rw n (ground (arith, find-put_loop j k v ll.head))),
          with_chain-IsValid kv k (after_put v (view kv k)) changed valid
              (λ j same. rw (count-put_loop j k v ll.head, ← n) (rw same (valid.unique j))),
        ),
      )

  -- `Put` does not panic. It reports whether the key is there, and then sets its value; otherwise
  -- the table stays as it is. Every other key keeps its value.
  pub put-Keeps :
      (v : GoString)
      → Returns
          (put k v kv)
          λ r. (r.1 ≡ found (view kv k)) × Keeps kv k (after_put v (view kv k)) r.0
  unfolding put
  put-Keeps v =
      let (c, e, n) = chain_ok kv k valid.sized in (put_chain k v kv c, rw e, put_chain-Keeps v c n)

  delete_chain-Keeps :
      (c : Option Linkedlist)
      → nodes_at kv.db (hash k) ≡ nodes c
      → ((delete_chain k kv c).1 ≡ found (view kv k)) × Keeps kv k none (delete_chain k kv c).0
  unfolding view
  delete_chain-Keeps none n =
      let absent : view kv k ≡ none = rw n (unfold find in refl) in
      (rw absent, (Writes-same k valid.sized absent, valid))
  delete_chain-Keeps (some ll) n = (
    rw n (remove-found k ll),
    (
      with_chain-Writes kv k none (remove k ll).0 valid.sized
          (λ j same. rw n (find-remove j k ll (rw (← n, same) (valid.unique j)))),
      with_chain-IsValid kv k none (remove k ll).0 valid
          (λ j same. omega (arith, count-remove-le j k ll, rw (← same, n) at (valid.unique j))),
    ),
  )

  -- `Delete` does not panic. It reports whether the key is there, and takes it out; every other key
  -- keeps its value.
  pub delete-Keeps : Returns (delete k kv) λ r. (r.1 ≡ found (view kv k)) × Keeps kv k none r.0
  unfolding delete
  delete-Keeps =
      let (c, e, n) = chain_ok kv k valid.sized in
      (delete_chain k kv c, rw e, delete_chain-Keeps c n)

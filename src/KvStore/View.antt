-- ===== src/KvStore/View.antt =====
-- The table as a map: the first value under a key in the chain of its hash. What each operation of
-- Store.antt returns, and what it does to this map.
use distributed_dns.Base.{
  ℕ, ◌≤◌, ◌<◌, ◌≡◌, refl, ap, Option, none, some, List, [], ◌∷◌, arith, GoString, str_eq,
  str_eq_iff, length, get_elem?, get_elem?-set, get_elem?-of_lt, set, length-set, ok, if◌then◌else◌,
  ◌==◌, ==_iff,
}
use distributed_dns.KvStore.Hash.{hash, hash-lt, buckets}
use distributed_dns.KvStore.LinkedList.{Node, Linkedlist, find, count, found}
use distributed_dns.KvStore.Store.{Store, invalid, chain, get_loop, get_chain, get, put_loop}

-- The nodes of a chain; a nil chain has none.
abbrev pub nodes : Option Linkedlist → List Node
nodes none = []
nodes (some ll) = ll.head

abbrev flat : Option (Option Linkedlist) → List Node
flat none = []
flat (some c) = nodes c

unfoldable pub nodes_at : List (Option Linkedlist) → ℕ → List Node
nodes_at db i = flat (get_elem? db i)

unfoldable pub view : Store → GoString → Option GoString
view kv k = find k (nodes_at kv.db (hash k))

abbrev pub or_invalid : Option GoString → GoString
or_invalid none = invalid
or_invalid (some v) = v

-- The array has all its chains, and no key stands twice in its chain.
pub record IsValid (kv : Store) : Type 0 where
  pub sized : length kv.db ≡ buckets
  pub unique : (k : GoString) → count k (nodes_at kv.db (hash k)) ≤ 1

-- The access to the chain of a key does not panic.
pub chain_ok :
    (kv : Store) (k : GoString)
    → length kv.db ≡ buckets
    → (c : Option Linkedlist) × (chain kv (hash k) ≡ ok c) × (nodes_at kv.db (hash k) ≡ nodes c)
unfolding chain nodes_at
chain_ok kv k h =
    let (c, e) = get_elem?-of_lt kv.db (hash k) (rw h (hash-lt k)) in
    (c, rw (e, chain), rw (e, nodes_at))

pub nodes_at-set :
    (db : List (Option Linkedlist)) (i j : ℕ) (ll : Linkedlist)
    → i < length db
    → nodes_at (set db i (some ll)) j ≡ (if i == j then ll.head else nodes_at db j)
unfolding nodes_at
nodes_at-set db i j ll h = ground (arith, get_elem?-set db i j (some ll))

get_loop-find : (k : GoString) (l : List Node) → get_loop k l ≡ or_invalid (find k l)
unfolding get_loop find
get_loop-find k [] = refl
get_loop-find k (n ∷ l) = ground (arith, get_loop-find k l)

pub find-put_loop :
    (j k : GoString) (v : GoString) (l : List Node)
    → find j (put_loop k v l).0
      ≡ (if str_eq k j then (if found (find k l) then some v else none) else find j l)
unfolding put_loop find
find-put_loop j k v [] = ground arith
find-put_loop j k v (n ∷ l) =
    ground (arith, find-put_loop j k v l, str_eq_iff k j, str_eq_iff n.key k, str_eq_iff n.key j)

pub count-put_loop : (j k v : GoString) (l : List Node) → count j (put_loop k v l).0 ≡ count j l
unfolding put_loop count
count-put_loop j k v [] = refl
count-put_loop j k v (n ∷ l) = ground (arith, count-put_loop j k v l)

pub put_loop-found : (k v : GoString) (l : List Node) → (put_loop k v l).1 ≡ found (find k l)
unfolding put_loop find
put_loop-found k v [] = refl
put_loop-found k v (n ∷ l) = ground (arith, put_loop-found k v l)

-- The effect on a key's chain: the hash of equal keys is one, so a key of another chain keeps its.
pub view-set :
    (kv : Store) (k j : GoString) (ll : Linkedlist)
    → length kv.db ≡ buckets
    → nodes_at (set kv.db (hash k) (some ll)) (hash j)
      ≡ (if hash k == hash j then ll.head else nodes_at kv.db (hash j))
view-set kv k j ll h = nodes_at-set kv.db (hash k) (hash j) ll (rw h (hash-lt k))

get_chain-find :
    (k : GoString) (c : Option Linkedlist) → get_chain k c ≡ or_invalid (find k (nodes c))
unfolding find
get_chain-find k none = refl
get_chain-find k (some ll) = get_loop-find k ll.head

-- `Get` does not panic, and returns the value under the key or "Invalid".
pub get-view :
    (kv : Store) (k : GoString) → length kv.db ≡ buckets → get k kv ≡ ok (or_invalid (view kv k))
unfolding get view
get-view kv k h = let (c, e, n) = chain_ok kv k h in rw (e, n) (ap ok (get_chain-find k c))

-- What a write at a key leaves of the table.
pub record Writes (kv : Store) (k : GoString) (v : Option GoString) (kv' : Store) : Type 0 where
  pub sized : length kv'.db ≡ buckets
  pub view : (j : GoString) → view kv' j ≡ (if str_eq k j then v else view kv j)
  pub same_file : kv'.filename ≡ kv.filename
  pub same_temp : kv'.db_temp ≡ kv.db_temp

-- A new chain at the key's index that differs from the old only at the key.
module _ (kv : Store) (k : GoString) (v : Option GoString) (ll : Linkedlist) where
  abbrev pub with_chain : Store
  with_chain = record kv { db = set kv.db (hash k) (some ll) }

  pub with_chain-Writes :
      length kv.db ≡ buckets
      → ((j : GoString)
          → hash k ≡ hash j
          → find j ll.head ≡ (if str_eq k j then v else find j (nodes_at kv.db (hash k))))
      → Writes kv k v with_chain
  unfolding view
  with_chain-Writes h f = record {
    sized = rw length-set h;
    view = λ j.
        rw (view-set kv k j ll h) (ground (arith, f j, str_eq_iff k j, ==_iff (hash k) (hash j)));
    same_file = refl;
    same_temp = refl;
  }

  pub with_chain-IsValid :
      IsValid kv → ((j : GoString) → hash k ≡ hash j → count j ll.head ≤ 1) → IsValid with_chain
  with_chain-IsValid h f = record {
    sized = rw length-set h.sized;
    unique = λ j.
        rw (view-set kv k j ll h.sized) (ground (arith, f j, h.unique j, ==_iff (hash k) (hash j)));
  }

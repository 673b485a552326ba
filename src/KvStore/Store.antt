-- ===== src/KvStore/Store.antt =====
-- raft/kv_store/hashmap.go: `Push`, `Get`, `Put` and `Delete` on the table of chains.
use distributed_dns.Base.{
  ℕ, Bool, true, false, Option, none, some, List, [], ◌∷◌, GoString, bytes, str_eq, StringMap,
  get_elem?, set, Run, ok, fault, panic, ◌>>=◌, if◌then◌else◌,
}
use distributed_dns.KvStore.Hash.{hash}
use distributed_dns.KvStore.LinkedList.{Node, Linkedlist, new_linked_list, add, remove}

-- The struct `store`. The handlers hold its mutex from start to end, so they do not interleave.
pub record Store : Type 0 where
  pub db : List (Option Linkedlist)
  pub filename : GoString
  pub db_temp : StringMap GoString

-- What `Get` returns for a missing key.
abbrev pub invalid : GoString
invalid = bytes "Invalid"

-- The chain `kv.db[id]`, which may be nil; `db` is an array, and another index panics.
unfoldable pub chain : Store → ℕ → Run (Option Linkedlist)
chain kv id = elim (get_elem? kv.db id) [ none ↦ fault panic | some c ↦ ok c ]

-- `if kv.db[id] == nil { kv.db[id] = newLinkedList() }`
abbrev pub or_new : Option Linkedlist → Linkedlist
or_new none = new_linked_list
or_new (some ll) = ll

unfoldable pub push : GoString → GoString → Store → Run Store
push key value kv = do
  c ← chain kv (hash key)
  ok (record kv { db = set kv.db (hash key) (some (add key value (or_new c))) })

-- The loop of `Get`.
unfoldable pub get_loop : GoString → List Node → GoString
get_loop key [] = invalid
get_loop key (n ∷ nodes) = if str_eq n.key key then n.datum else get_loop key nodes

abbrev pub get_chain : GoString → Option Linkedlist → GoString
get_chain key none = invalid
get_chain key (some ll) = get_loop key ll.head

unfoldable pub get : GoString → Store → Run GoString
get key kv = do c ← chain kv (hash key); ok (get_chain key c)

-- The loop of `Put`: the first node with the key takes the value.
unfoldable pub put_loop : GoString → GoString → List Node → List Node × Bool
put_loop key value [] = ([], false)
put_loop key value (n ∷ nodes) =
    if str_eq n.key key
    then (record n { datum = value } ∷ nodes, true)
    else (n ∷ (put_loop key value nodes).0, (put_loop key value nodes).1)

abbrev pub put_chain : GoString → GoString → Store → Option Linkedlist → Store × Bool
put_chain key value kv none = (kv, false)
put_chain key value kv (some ll) =
    let (nodes, done) = put_loop key value ll.head in
    (record kv { db = set kv.db (hash key) (some (record ll { head = nodes })) }, done)

unfoldable pub put : GoString → GoString → Store → Run (Store × Bool)
put key value kv = do c ← chain kv (hash key); ok (put_chain key value kv c)

abbrev pub delete_chain : GoString → Store → Option Linkedlist → Store × Bool
delete_chain key kv none = (kv, false)
delete_chain key kv (some ll) =
    let (ll', check) = remove key ll in (record kv { db = set kv.db (hash key) (some ll') }, check)

unfoldable pub delete : GoString → Store → Run (Store × Bool)
delete key kv = do c ← chain kv (hash key); ok (delete_chain key kv c)

-- ===== src/KvStore/LinkedList.antt =====
-- raft/kv_store/linkedlist.go: a chain of key-value pairs. A node is reached from one place only,
-- so the chain of pointers is a list.
use distributed_dns.Base.{
  ℕ, ◌+◌, ◌-◌, ◌≤◌, ◌≡◌, refl, Bool, true, false, Option, none, some, List, [], ◌∷◌, arith,
  GoString, str_eq, str_eq_iff, length, if◌then◌else◌,
}

pub record Node : Type 0 where
  pub key : GoString
  -- the field `Data`
  pub datum : GoString

pub record Linkedlist : Type 0 where
  pub head : List Node
  pub size : ℕ

abbrev pub new_linked_list : Linkedlist
new_linked_list = record { head = []; size = 0 }

unfoldable pub is_empty : Linkedlist → Bool
is_empty ll = elim ll.head [ [] ↦ true | _ ∷ _ ↦ false ]

unfoldable pub add : GoString → GoString → Linkedlist → Linkedlist
add key datum ll = record {
  head = record { key = key; datum = datum } ∷ ll.head;
  size = ll.size + 1;
}

-- The loop of `remove`: `nodes` is what follows `newNode`.
unfoldable pub unlink : GoString → List Node → List Node × Bool
unlink str [] = ([], false)
unlink str (n ∷ nodes) =
    if str_eq n.key str then (nodes, true) else (n ∷ (unlink str nodes).0, (unlink str nodes).1)

remove_nodes : GoString → List Node → List Node × Bool
unfolding unlink
remove_nodes str [] = ([], false)
remove_nodes str (n ∷ nodes) =
    if str_eq n.key str
    then (nodes, true)
    else let (rest, found) = unlink str nodes in (n ∷ rest, found)

unfoldable pub remove : GoString → Linkedlist → Linkedlist × Bool
unfolding remove_nodes
remove str ll =
    let (nodes, found) = remove_nodes str ll.head in
    if found then (record { head = nodes; size = ll.size - 1 }, true) else (ll, false)

-- The first value under a key.
unfoldable pub find : GoString → List Node → Option GoString
find k [] = none
find k (n ∷ nodes) = if str_eq n.key k then some n.datum else find k nodes

unfoldable pub count : GoString → List Node → ℕ
count k [] = 0
count k (n ∷ nodes) = (if str_eq n.key k then 1 else 0) + count k nodes

pub find-of_count_zero : (k : GoString) (l : List Node) → count k l ≡ 0 → find k l ≡ none
unfolding find count
find-of_count_zero k [] h = refl
find-of_count_zero k (n ∷ l) h = ground (arith, find-of_count_zero k l)

pub count-of_find : (k : GoString) (l : List Node) → find k l ≡ none → count k l ≡ 0
unfolding find count
count-of_find k [] h = refl
count-of_find k (n ∷ l) h = ground (arith, count-of_find k l)

-- The special case of the first node does what the loop would do.
remove_nodes-unlink : (k : GoString) (l : List Node) → remove_nodes k l ≡ unlink k l
unfolding remove_nodes
remove_nodes-unlink k [] = refl
remove_nodes-unlink k (n ∷ l) = ground arith

-- Whether a value was found.
abbrev pub found : Option GoString → Bool
found none = false
found (some _) = true

abbrev pub to_nat : Bool → ℕ
to_nat true = 1
to_nat false = 0

-- The node removed is the first with the key, if there is one.
unlink-found : (k : GoString) (l : List Node) → (unlink k l).1 ≡ found (find k l)
unfolding unlink find
unlink-found k [] = refl
unlink-found k (n ∷ l) = ground (arith, unlink-found k l)

length-unlink :
    (k : GoString) (l : List Node) → length (unlink k l).0 + to_nat (unlink k l).1 ≡ length l
unfolding unlink
length-unlink k [] = refl
length-unlink k (n ∷ l) = ground (arith, length-unlink k l)

count-unlink-le : (j k : GoString) (l : List Node) → count j (unlink k l).0 ≤ count j l
unfolding unlink count
count-unlink-le j k [] = omega arith
count-unlink-le j k (n ∷ l) = ground (arith, count-unlink-le j k l)

find-unlink :
    (j k : GoString) (l : List Node)
    → count j l ≤ 1
    → find j (unlink k l).0 ≡ (if str_eq k j then none else find j l)
unfolding unlink find count
find-unlink j k [] h = ground arith
find-unlink j k (n ∷ l) h = ground (
  arith,
  find-unlink j k l,
  find-of_count_zero j l,
  str_eq_iff k j,
  str_eq_iff n.key k,
  str_eq_iff n.key j,
)

unlink-absent : (k : GoString) (l : List Node) → (unlink k l).1 ≡ false → (unlink k l).0 ≡ l
unfolding unlink
unlink-absent k [] h = refl
unlink-absent k (n ∷ l) h = ground (arith, unlink-absent k l)

pub remove-found : (k : GoString) (ll : Linkedlist) → (remove k ll).1 ≡ found (find k ll.head)
unfolding remove
remove-found k ll = ground (arith, remove_nodes-unlink k ll.head, unlink-found k ll.head)

-- What is left of a chain after `remove`, as it was in the list of nodes alone.
pub head-remove : (k : GoString) (ll : Linkedlist) → (remove k ll).0.head ≡ (unlink k ll.head).0
unfolding remove
head-remove k ll = ground (arith, remove_nodes-unlink k ll.head, unlink-absent k ll.head)

pub count-remove-le :
    (j k : GoString) (ll : Linkedlist) → count j (remove k ll).0.head ≤ count j ll.head
count-remove-le j k ll = rw (head-remove k ll) (count-unlink-le j k ll.head)

-- In a chain without repeated keys `remove` takes the key out and keeps every other.
pub find-remove :
    (j k : GoString) (ll : Linkedlist)
    → count j ll.head ≤ 1
    → find j (remove k ll).0.head ≡ (if str_eq k j then none else find j ll.head)
find-remove j k ll h = rw (head-remove k ll) (find-unlink j k ll.head h)

-- The field `Size` stays the number of nodes.
pub size-remove :
    (k : GoString) (ll : Linkedlist)
    → ll.size ≡ length ll.head
    → (remove k ll).0.size ≡ length (remove k ll).0.head
unfolding remove
size-remove k ll h = ground (arith, remove_nodes-unlink k ll.head, length-unlink k ll.head)

-- ===== src/Tests/Store.antt =====
-- The key-value store with one pair, a session of requests, and a restart.
use distributed_dns.Base.{
  ◌≡◌, ◌<◌, refl, ap, length, arith, Option, none, some, List, [], ◌∷◌, GoString, bytes, Returns,
  Run, ok, fault, sym, ◌∙◌,
}
use mathlib.Core.Path.{subst}
use distributed_dns.KvStore.Hash.{hash, hash-lt, buckets}
use distributed_dns.KvStore.LinkedList.{Linkedlist, add, new_linked_list}
use distributed_dns.KvStore.Store.{Store, push, chain}
use distributed_dns.KvStore.View.{view, with_chain}
use distributed_dns.KvStore.Operations.{Keeps, push-Keeps}
use distributed_dns.KvStore.Handlers.{Request, Server, remember}
use distributed_dns.KvStore.Service.{
  Method, session, spec_session, IsConsistent, IsPlain, live, session_refines, Keeps-mirrored,
}
use distributed_dns.KvStore.Saved.{
  view_empty, empty_store, empty-IsConsistent, initialize_store, initialize-persist,
}
use distributed_dns.Tests.Images.{plain}

abbrev asked : GoString → Request
asked v = record { form_error = none; value = bytes "10.0.0.1"; key = v }

abbrev site : GoString
site = bytes "a.com"

abbrev server : Server λ m. m
server = record { kv = empty_store (bytes "db"); file = none }

asked-IsPlain : (k : GoString) → IsPlain (asked k)
asked-IsPlain k = record { parses = refl; proper = λ e. omega (arith, ap length e) }

abbrev requests : List (Method × Request)
requests =
    (Method.post, asked site)
    ∷ (Method.post, asked site)
    ∷ (Method.get, asked site)
    ∷ (Method.delete, asked site)
    ∷ (Method.put, asked site)
    ∷ []

session_refines_example : Returns (session (λ m. m) requests server) λ res.
    IsConsistent res.0.kv
    × ((j : GoString) → view res.0.kv j ≡ (spec_session requests (view server.kv)).0 j)
    × (res.1 ≡ (spec_session requests (view server.kv)).1)
session_refines_example =
    let p = asked-IsPlain site in
    session_refines (λ m. m) requests server (empty-IsConsistent (bytes "db"))
      (p, (p, (p, (p, (p, tt)))))

hash-lt_example : hash site < buckets
hash-lt_example = hash-lt site

abbrev address : GoString
address = bytes "10.0.0.1"

abbrev value_or : GoString → Option GoString → GoString
value_or v none = v
value_or v (some w) = w

abbrev run_or : Store → Run Store → Store
run_or s (ok s') = s'
run_or s (fault f) = s

-- The chain of the one key, and the table with it.
abbrev one_chain : Linkedlist
one_chain = add site address new_linked_list

abbrev one_pair : Store
one_pair = with_chain (empty_store (bytes "db")) site none one_chain

pushed : push site address (empty_store (bytes "db")) ≡ ok one_pair
unfolding push chain hash
pushed = refl

one_pair-Keeps : Keeps (empty_store (bytes "db")) site (some address) one_pair
one_pair-Keeps =
    let empty = empty_store (bytes "db") in
    let (kv, run, keeps) =
      push-Keeps empty site (empty-IsConsistent (bytes "db")).valid address
        (view_empty (bytes "db") [] site) in
    let same : kv ≡ one_pair = ap (run_or (empty_store [])) (sym run ∙ pushed) in
    subst (λ s. Keeps empty site (some address) s) same keeps

abbrev saved_pair : Store
saved_pair = remember site address one_pair

initialize-persist_example :
    Returns
      (initialize_store (plain GoString) (bytes "db") (some saved_pair.db_temp))
      λ kv. IsConsistent kv × ((k : GoString) → view kv k ≡ live (view saved_pair k))
initialize-persist_example = initialize-persist (plain GoString) (bytes "db") saved_pair (
    Keeps-mirrored (empty-IsConsistent (bytes "db")) one_pair-Keeps
      (λ e. omega (arith, ap length (ap (value_or []) e))) address refl)

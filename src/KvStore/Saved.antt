-- ===== src/KvStore/Saved.antt =====
-- raft/kv_store/saved.go and `InitializeStore`: a store is rebuilt from the file that `Persist` wrote.
use distributed_dns.Base.{
  ℕ, zero, suc, lt→ltb, ◌≤◌, ◌<◌, ◌≡◌, refl, sym, ap, ◌∙◌, Bool, true, false, Option, none, some,
  [], ◌∷◌, arith, GoString, str_eq_iff, StringMap, Gob, or_else, or_else-none, lookup, occurs,
  lookup-of_occurs_zero, replicate, length-replicate, Run, ok, fault, exit, ◌>>=◌, Returns,
  if◌then◌else◌, ltb,
}
use distributed_dns.KvStore.Hash.{hash, buckets}
use distributed_dns.KvStore.LinkedList.{Linkedlist, find, count}
use distributed_dns.KvStore.Store.{Store, push}
use distributed_dns.KvStore.View.{nodes_at, view, IsValid}
use distributed_dns.KvStore.Operations.{push-Keeps}
use distributed_dns.KvStore.Service.{live, IsConsistent}

abbrev pub is_empty_string : GoString → Bool
is_empty_string [] = true
is_empty_string (b ∷ s) = false

-- The loop of `readFile` over the entries.
unfoldable pub push_all : StringMap GoString → Store → Run Store
push_all [] kv = ok kv
push_all ((key, value) ∷ es) kv = do
  kv' ← if is_empty_string value then ok kv else push key value kv
  push_all es kv'

abbrev pub empty_store : GoString → Store
empty_store text = record { db = replicate buckets none; filename = text; db_temp = [] }

module _ (gob : Gob GoString) where
  open gob use {Image, encode, decode, size, order}

  -- `none` is a file that does not exist.
  unfoldable pub has_data : Option Image → Bool
  has_data none = false
  has_data (some image) = ltb 0 (size image)

  abbrev pub rebuild : Store → Option (StringMap GoString) → Run Store
  rebuild kv none = fault exit
  rebuild kv (some m) = push_all (order m) (record kv { db_temp = m })

  unfoldable pub read_file : Option Image → Store → Run Store
  read_file none kv = fault exit
  read_file (some image) kv = rebuild kv (decode image kv.db_temp)

  unfoldable pub initialize_store : GoString → Option Image → Run Store
  unfolding has_data read_file
  initialize_store text file =
      if has_data file then read_file file (empty_store text) else ok (empty_store text)

push_all-view :
    (es : StringMap GoString) (kv : Store)
    → IsValid kv
    → ((k : GoString) → occurs k es ≤ 1)
    → ((k : GoString) → 0 < occurs k es → view kv k ≡ none)
    → Returns (push_all es kv) λ kv'.
      IsValid kv'
      × ((j : GoString) → view kv' j ≡ or_else (view kv j) (live (lookup j es)))
      × (kv'.db_temp ≡ kv.db_temp)
unfolding push_all lookup occurs
push_all-view [] kv v once apart = (kv, refl, (v, λ j. ground arith, refl))
push_all-view ((k, []) ∷ es) kv v once apart =
    let (kv', run, (v', reads, temp)) =
      push_all-view es kv v (λ j. ground (arith, once j)) (λ j h. ground (arith, apart j)) in
    (kv', run, (v', λ j. ground (arith, reads j, lookup-of_occurs_zero j es, once j), temp))
push_all-view ((k, b ∷ s) ∷ es) kv v once apart =
    let (kv₁, run₁, (writes, v₁)) =
      push-Keeps kv k v (b ∷ s) (apart k (ground (arith, str_eq_iff k k))) in
    let (kv', run, (v', reads, temp)) =
      push_all-view es kv₁ v₁ (λ j. ground (arith, once j))
        (λ j h. ground (arith, apart j, once j, writes.view j)) in
    (
      kv',
      rw run₁ run,
      (
        v',
        λ j. ground (arith, reads j, writes.view j, lookup-of_occurs_zero j es, once j, apart j),
        temp ∙ writes.same_temp,
      ),
    )

live-eq-some : (o : Option GoString) {v : GoString} → live o ≡ some v → o ≡ some v
live-eq-some none h = h
live-eq-some (some []) h = cc
live-eq-some (some (b ∷ s)) h = h

live-live : (o : Option GoString) → live (live o) ≡ live o
live-live none = refl
live-live (some []) = refl
live-live (some (b ∷ s)) = refl

nodes_at-replicate : (n i : ℕ) → nodes_at (replicate n none) i ≡ []
unfolding nodes_at
nodes_at-replicate zero i = refl
nodes_at-replicate (suc n) zero = refl
nodes_at-replicate (suc n) (suc i) = nodes_at-replicate n i

pub view_empty :
    (text : GoString) (m : StringMap GoString) (k : GoString)
    → view (record (empty_store text) { db_temp = m }) k ≡ none
unfolding view find
view_empty text m k = rw (nodes_at-replicate buckets (hash k))

empty-IsValid :
    (text : GoString) (m : StringMap GoString) → IsValid (record (empty_store text) { db_temp = m })
unfolding count
empty-IsValid text m = record {
  sized = length-replicate {A = Option Linkedlist} buckets none;
  unique = λ k. rw (nodes_at-replicate buckets (hash k)) (omega arith);
}

pub empty-IsConsistent : (text : GoString) → IsConsistent (empty_store text)
unfolding lookup
empty-IsConsistent text = record {
  valid = empty-IsValid text [];
  proper = λ k. rw (view_empty text [] k) (λ e. cc);
  mirrored = λ k. rw (view_empty text [] k) refl;
}

module _ (gob : Gob GoString) where
  open gob use {
    Image, encode, decode, size, order, decode-encode, size-encode, order_once, lookup-order,
  }

  -- A store without a file is consistent and has no values.
  pub initialize_new :
      (text : GoString)
      → Returns
          (initialize_store gob text none)
          λ kv. IsConsistent kv × ((k : GoString) → view kv k ≡ none)
  unfolding initialize_store
  initialize_new text = (empty_store text, refl, (empty-IsConsistent text, view_empty text []))

  -- A store rebuilt from the file that `Persist` wrote for a consistent store is consistent, and
  -- has every value of that store but the empty ones.
  pub initialize-persist :
      (text : GoString) (kv : Store)
      → IsConsistent kv
      → Returns
          (initialize_store gob text (some (encode kv.db_temp)))
          λ kv'. IsConsistent kv' × ((k : GoString) → view kv' k ≡ live (view kv k))
  unfolding initialize_store lookup
  initialize-persist text kv c =
      let (m, decoded, same) = decode-encode kv.db_temp [] in
      let (kv', run, (v', reads, temp)) =
        push_all-view (order m) (record (empty_store text) { db_temp = m }) (empty-IsValid text m)
          (order_once m) (λ k h. view_empty text m k) in
      let reads' : (k : GoString) → view kv' k ≡ live (view kv k) = λ k.
        reads k
        ∙ ap (λ o. or_else o (live (lookup k (order m)))) (view_empty text m k)
        ∙ ap live (lookup-order m k ∙ same k ∙ or_else-none (lookup k kv.db_temp))
        ∙ c.mirrored k in
      (
        kv',
        rw (lt→ltb 0 (size (encode kv.db_temp)) (size-encode kv.db_temp), decoded) run,
        (
          record {
            valid = v';
            proper = λ k e. c.proper k (live-eq-some (view kv k) (sym (reads' k) ∙ e));
            mirrored = λ k.
                ap (λ t. live (lookup k t)) temp
                ∙ ap live (same k ∙ or_else-none (lookup k kv.db_temp))
                ∙ c.mirrored k
                ∙ sym (ap live (reads' k) ∙ live-live (view kv k));
          },
          reads',
        ),
      )

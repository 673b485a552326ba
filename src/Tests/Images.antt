-- ===== src/Tests/Images.antt =====
-- A file that holds a map as it is: the assumptions on gob can be met.
use distributed_dns.Base.{
  ◌≤◌, ◌≡◌, refl, Option, some, [], ◌∷◌, ◌++◌, arith, GoString, str_eq, str_eq_iff, StringMap,
  lookup, insert, lookup-insert, occurs, Gob, or_else, if◌then◌else◌, ◌==◌, ◌&&◌,
}

module _ {V : Type 0} where
  lookup-append :
      (k : GoString) (m old : StringMap V)
      → lookup k (m ++ old) ≡ or_else (lookup k m) (lookup k old)
  unfolding lookup
  lookup-append k [] old = refl
  lookup-append k ((j, v) ∷ m) old = ground (arith, lookup-append k m old)

  occurs-insert :
      (j k : GoString) (v : V) (m : StringMap V)
      → occurs j (insert k v m) ≡ (if str_eq k j && occurs j m == 0 then 1 else occurs j m)
  unfolding occurs insert
  occurs-insert j k v [] = ground arith
  occurs-insert j k v ((i, w) ∷ m) =
      ground (arith, occurs-insert j k v m, str_eq_iff i k, str_eq_iff k j, str_eq_iff i j)

  -- Each key once, with its first value.
  unfoldable pub dedupe : StringMap V → StringMap V
  dedupe [] = []
  dedupe ((k, v) ∷ m) = insert k v (dedupe m)

  pub occurs-dedupe : (m : StringMap V) (k : GoString) → occurs k (dedupe m) ≤ 1
  unfolding dedupe occurs
  occurs-dedupe [] k = omega arith
  occurs-dedupe ((j, v) ∷ m) k = ground (arith, occurs-insert k j v (dedupe m), occurs-dedupe m k)

  pub lookup-dedupe : (m : StringMap V) (k : GoString) → lookup k (dedupe m) ≡ lookup k m
  unfolding dedupe lookup
  lookup-dedupe [] k = refl
  lookup-dedupe ((j, v) ∷ m) k = ground (arith, lookup-insert k j v (dedupe m), lookup-dedupe m k)

  pub plain_decode :
      (m old : StringMap V)
      → (m' : StringMap V) × (◌≡◌ {A = Option (StringMap V)} (some (m ++ old)) (some m'))
        × ((k : GoString) → lookup k m' ≡ or_else (lookup k m) (lookup k old))
  plain_decode m old = (m ++ old, refl, λ k. lookup-append k m old)

abbrev pub plain : (V : Type 0) → Gob V
plain V = record {
  Image = StringMap V;
  encode = λ m. m;
  decode = λ m old. some (m ++ old);
  size = λ m. 1;
  order = dedupe;
  decode-encode = plain_decode;
  size-encode = λ m. omega arith;
  order_once = occurs-dedupe;
  lookup-order = lookup-dedupe;
}

-- ===== src/Base/Maps.antt =====
-- Go maps with string keys, as association lists. A map's iteration order is left open.
use distributed_dns.Base.Tests.{if◌then◌else◌}
use distributed_dns.Base.Text.{GoString, str_eq, str_eq_iff}
use Prim.Native.Nat.{ℕ, ◌+◌}
use mathlib.Core.Path.{◌≡◌, refl}
use mathlib.Core.List.{List, [], ◌∷◌}
use mathlib.Core.Option.{Option, none, some}
use native.Mathlib.Omega.{arith}

abbrev pub StringMap {ℓ} : Type ℓ → Type ℓ
StringMap V = List (GoString × V)

module _ {ℓ} {V : Type ℓ} where
  -- `m[key]`, with `none` for a missing key
  unfoldable pub lookup : GoString → StringMap V → Option V
  lookup k [] = none
  lookup k ((j, v) ∷ m) = if str_eq j k then some v else lookup k m

  -- `m[key] = value`
  unfoldable pub insert : GoString → V → StringMap V → StringMap V
  insert k v [] = (k, v) ∷ []
  insert k v ((j, w) ∷ m) = if str_eq j k then (j, v) ∷ m else (j, w) ∷ insert k v m

  pub lookup-insert :
      (j k : GoString) (v : V) (m : StringMap V)
      → lookup j (insert k v m) ≡ (if str_eq k j then some v else lookup j m)
  unfolding lookup insert
  lookup-insert j k v [] = refl
  lookup-insert j k v ((i, w) ∷ m) =
      ground (arith, str_eq_iff k j, str_eq_iff i k, str_eq_iff i j, lookup-insert j k v m)

  -- How often a key stands in a sequence of entries.
  unfoldable pub occurs : GoString → StringMap V → ℕ
  occurs k [] = 0
  occurs k ((j, v) ∷ m) = (if str_eq j k then 1 else 0) + occurs k m

  pub lookup-of_occurs_zero : (k : GoString) (m : StringMap V) → occurs k m ≡ 0 → lookup k m ≡ none
  unfolding lookup occurs
  lookup-of_occurs_zero k [] h = refl
  lookup-of_occurs_zero k ((j, v) ∷ m) h = ground (arith, lookup-of_occurs_zero k m)

  pub occurs-of_lookup : (k : GoString) (m : StringMap V) → lookup k m ≡ none → occurs k m ≡ 0
  unfolding lookup occurs
  occurs-of_lookup k [] h = refl
  occurs-of_lookup k ((j, v) ∷ m) h = ground (arith, occurs-of_lookup k m)

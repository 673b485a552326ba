-- ===== src/Base/Gobs.antt =====
-- What the code relies on of encoding/gob, of the file system and of Go maps: named assumptions.
use Prim.Native.Nat.{ℕ, ◌≤◌, ◌<◌}
use mathlib.Core.Path.{◌≡◌, refl}
use mathlib.Core.Option.{Option, none, some}
use distributed_dns.Base.Text.{GoString}
use distributed_dns.Base.Maps.{StringMap, lookup, occurs}

-- The first of two values that is there.
abbrev pub or_else {ℓ} : {A : Type ℓ} → Option A → Option A → Option A
or_else none b = b
or_else (some a) b = some a

pub or_else-none {ℓ} : {A : Type ℓ} (o : Option A) → or_else o none ≡ o
or_else-none none = refl
or_else-none (some a) = refl

-- The gob image of a map with values in `V`, the size of a file that holds it, and the order in
-- which `range` visits a map. `decode` adds what it reads to a map that is given; that an image
-- decodes to the map that it encodes is stated key by key.
pub record Gob (V : Type 0) : Type 1 where
  pub Image : Type 0
  pub encode : StringMap V → Image
  pub decode : Image → StringMap V → Option (StringMap V)
  pub size : Image → ℕ
  pub order : StringMap V → StringMap V
  pub decode-encode :
      (m old : StringMap V)
      → (m' : StringMap V) × (decode (encode m) old ≡ some m')
        × ((k : GoString) → lookup k m' ≡ or_else (lookup k m) (lookup k old))
  pub size-encode : (m : StringMap V) → 0 < size (encode m)
  pub order_once : (m : StringMap V) (k : GoString) → occurs k (order m) ≤ 1
  pub lookup-order : (m : StringMap V) (k : GoString) → lookup k (order m) ≡ lookup k m

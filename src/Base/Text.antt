-- ===== src/Base/Text.antt =====
-- Go strings: sequences of bytes.
use Prim.Native.Nat.{ℕ}
use Prim.Native.Char.{code}
use Prim.Native.String.{String}
use mathlib.Core.Path.{◌≡◌, refl}
use mathlib.Core.Logic.{◌↔◌}
use mathlib.Core.Bool.{Bool, true, false}
use mathlib.Core.List.{List, [], ◌∷◌}
use native.Mathlib.Omega.{arith}
use distributed_dns.Base.Tests.{◌==◌, if◌then◌else◌}

-- The bytes of a Go string.
abbrev pub GoString : Type 0
GoString = List ℕ

-- The bytes of an ASCII literal.
abbrev pub bytes : String → GoString
bytes String.[] = []
bytes (String.◌∷◌ c s) = code c ∷ bytes s

-- `==` on strings
unfoldable pub str_eq : GoString → GoString → Bool
str_eq [] [] = true
str_eq (a ∷ s) (b ∷ t) = if a == b then str_eq s t else false
str_eq _ _ = false

pub str_eq→eq : (s t : GoString) → str_eq s t ≡ true → s ≡ t
unfolding str_eq
str_eq→eq [] [] h = refl
str_eq→eq [] (b ∷ t) h = ground arith
str_eq→eq (a ∷ s) [] h = ground arith
str_eq→eq (a ∷ s) (b ∷ t) h = ground (arith, str_eq→eq s t)

pub str_eq_refl : (s : GoString) → str_eq s s ≡ true
unfolding str_eq
str_eq_refl [] = refl
str_eq_refl (a ∷ s) = ground (arith, str_eq_refl s)

pub eq→str_eq : (s t : GoString) → s ≡ t → str_eq s t ≡ true
eq→str_eq s t h = ground (arith, str_eq_refl s)

pub str_eq_iff : (s t : GoString) → (str_eq s t ≡ true) ↔ (s ≡ t)
str_eq_iff s t = (str_eq→eq s t, eq→str_eq s t)

-- `reflect.DeepEqual` on two slices of strings
unfoldable pub deep_equal : List GoString → List GoString → Bool
deep_equal [] [] = true
deep_equal (a ∷ s) (b ∷ t) = if str_eq a b then deep_equal s t else false
deep_equal _ _ = false

pub deep_equal→eq : (s t : List GoString) → deep_equal s t ≡ true → s ≡ t
unfolding deep_equal
deep_equal→eq [] [] h = refl
deep_equal→eq [] (b ∷ t) h = ground arith
deep_equal→eq (a ∷ s) [] h = ground arith
deep_equal→eq (a ∷ s) (b ∷ t) h = ground (arith, str_eq→eq a b, deep_equal→eq s t)

pub deep_equal_refl : (s : List GoString) → deep_equal s s ≡ true
unfolding deep_equal
deep_equal_refl [] = refl
deep_equal_refl (a ∷ s) = ground (arith, str_eq_refl a, deep_equal_refl s)

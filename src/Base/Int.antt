-- ===== src/Base/Int.antt =====
-- Signed integers over the native numbers, under the library's names, and Go's `int32`.
-- Sums and orders go through the two parts of an integer, which are numbers that `omega` reads.
use Prim.Native.Nat.{ℕ, zero, suc, ◌+◌, ◌-◌, ◌%◌, ◌^◌, ◌≤◌, ◌<◌}
use mathlib.Core.Path.{◌≡◌, refl}
use mathlib.Core.Logic.{◌↔◌}
use mathlib.Core.Bool.{Bool, true}
use native.Mathlib.Omega.{arith}
use distributed_dns.Base.Tests.{ltb, leb, ◌==◌, if◌then◌else◌}

-- `negsuc n` is -(n + 1).
pub data ℤ : Type 0 where
  pos : ℕ → ℤ
  negsuc : ℕ → ℤ

abbrev pub pos_part : ℤ → ℕ
pos_part (pos n) = n
pos_part (negsuc n) = 0

abbrev pub neg_part : ℤ → ℕ
neg_part (pos n) = 0
neg_part (negsuc n) = suc n

-- a - b, as an integer.
abbrev pub sub_ℕ : ℕ → ℕ → ℤ
sub_ℕ a b = if leb b a then pos (a - b) else negsuc (b - a - 1)

infixl 65 ◌+ℤ◌ ◌-ℤ◌
unfoldable pub ◌+ℤ◌ : ℤ → ℤ → ℤ
a +ℤ b = sub_ℕ (pos_part a + pos_part b) (neg_part a + neg_part b)

unfoldable pub ◌-ℤ◌ : ℤ → ℤ → ℤ
a -ℤ b = sub_ℕ (pos_part a + neg_part b) (neg_part a + pos_part b)

infix 50 ◌≤ℤ◌ ◌<ℤ◌
abbrev pub ◌≤ℤ◌ : ℤ → ℤ → Type 0
a ≤ℤ b = pos_part a + neg_part b ≤ pos_part b + neg_part a

abbrev pub ◌<ℤ◌ : ℤ → ℤ → Type 0
a <ℤ b = pos_part a + neg_part b < pos_part b + neg_part a

abbrev pub ltb_ℤ : ℤ → ℤ → Bool
ltb_ℤ a b = ltb (pos_part a + neg_part b) (pos_part b + neg_part a)

abbrev pub leb_ℤ : ℤ → ℤ → Bool
leb_ℤ a b = leb (pos_part a + neg_part b) (pos_part b + neg_part a)

abbrev pub eqb_ℤ : ℤ → ℤ → Bool
eqb_ℤ a b = pos_part a + neg_part b == pos_part b + neg_part a

pub eqb_ℤ_iff : (a b : ℤ) → (eqb_ℤ a b ≡ true) ↔ (a ≡ b)
eqb_ℤ_iff a b = ground arith

pub eqb_ℤ_refl : (a : ℤ) → eqb_ℤ a a ≡ true
eqb_ℤ_refl a = ground arith

-- -1, the index before the first and the vote for nobody.
abbrev pub minus_one : ℤ
minus_one = negsuc 0

-- The value that an `int32` keeps of an integer.
unfoldable pub wrap32 : ℤ → ℤ
wrap32 (pos n) = let m = n % 2 ^ 32 in if ltb m (2 ^ 31) then pos m else negsuc (2 ^ 32 - m - 1)
wrap32 (negsuc n) = let m = n % 2 ^ 32 in if ltb m (2 ^ 31) then negsuc m else pos (2 ^ 32 - m - 1)

-- The range of an `int32`.
abbrev pub IsInt32 : ℤ → Type 0
IsInt32 (pos n) = n < 2 ^ 31
IsInt32 (negsuc n) = n < 2 ^ 31

pub wrap32-of_IsInt32 : (a : ℤ) → IsInt32 a → wrap32 a ≡ a
unfolding wrap32
wrap32-of_IsInt32 (pos n) h = ground arith
wrap32-of_IsInt32 (negsuc n) h = ground arith

pub wrap32-IsInt32 : (a : ℤ) → IsInt32 (wrap32 a)
unfolding wrap32
wrap32-IsInt32 (pos n) = ground arith
wrap32-IsInt32 (negsuc n) = ground arith

-- `a + b` and `a - b` on `int32`
unfoldable pub add32 : ℤ → ℤ → ℤ
add32 a b = wrap32 (a +ℤ b)

unfoldable pub sub32 : ℤ → ℤ → ℤ
sub32 a b = wrap32 (a -ℤ b)

-- `int32(n)` for a length
unfoldable pub int32 : ℕ → ℤ
int32 n = wrap32 (pos n)

pub int32-of_lt : (n : ℕ) → n < 2 ^ 31 → int32 n ≡ pos n
unfolding int32
int32-of_lt n h = wrap32-of_IsInt32 (pos n) h

pub add32-pos : (a b : ℕ) → a + b < 2 ^ 31 → add32 (pos a) (pos b) ≡ pos (a + b)
unfolding add32 wrap32 ◌+ℤ◌
add32-pos a b h = ground arith

pub add32-minus_one : add32 minus_one (pos 1) ≡ pos 0
unfolding add32 wrap32 ◌+ℤ◌
add32-minus_one = refl

-- One more than an `int32` below the largest.
pub add32-one : (a : ℤ) → IsInt32 a → a <ℤ pos (2 ^ 31 - 1) → add32 a (pos 1) ≡ a +ℤ pos 1
unfolding add32 wrap32 ◌+ℤ◌
add32-one (pos n) h k = ground arith
add32-one (negsuc n) h k = ground arith

pub lt-add_one : (a : ℤ) → a <ℤ a +ℤ pos 1
unfolding ◌+ℤ◌
lt-add_one a = ground arith

pub sub32-suc : (n : ℕ) → n < 2 ^ 31 - 1 → sub32 (pos (suc n)) (pos 1) ≡ pos n
unfolding sub32 wrap32 ◌-ℤ◌
sub32-suc n h = ground arith

pub sub32-zero : sub32 (pos 0) (pos 1) ≡ minus_one
unfolding sub32 wrap32 ◌-ℤ◌
sub32-zero = refl

pub add32-next : (a : ℤ) → minus_one ≤ℤ a → a <ℤ pos (2 ^ 31 - 1) → add32 a (pos 1) ≡ a +ℤ pos 1
unfolding add32 wrap32 ◌+ℤ◌
add32-next (pos n) h k = ground arith
add32-next (negsuc zero) h k = refl
add32-next (negsuc (suc n)) h k = absurd (omega arith)

pub +ℤ_parts :
    (a b : ℤ)
    → pos_part (a +ℤ b) + neg_part a + neg_part b ≡ neg_part (a +ℤ b) + pos_part a + pos_part b
unfolding ◌+ℤ◌
+ℤ_parts a b = ground arith

-- ===== src/Base/Decimal.antt =====
-- `strconv.Itoa` on natural numbers.
use Prim.Native.Nat.{ℕ, zero, suc, ◌+◌, ◌*◌, ◌/◌, ◌%◌, ◌-◌, ◌<◌}
use mathlib.Core.Path.{◌≡◌, refl, sym, ap, ◌∙◌}
use mathlib.Core.Logic.{inl, inr}
use mathlib.Core.List.{[], ◌∷◌, ◌++◌}
use native.Mathlib.Omega.{arith}
use distributed_dns.Base.Tests.{ltb, Bool-cases, if◌then◌else◌}
use distributed_dns.Base.Text.{GoString}

-- The digits, for a number below `10 ^ fuel` at least.
unfoldable digits : ℕ → ℕ → GoString
digits zero n = []
digits (suc fuel) n =
    let front = digits fuel (n / 10) in
    if ltb n 10 then (48 + n) ∷ [] else front ++ ((48 + n % 10) ∷ [])

unfoldable pub itoa : ℕ → GoString
unfolding digits
itoa n = digits (suc n) n

-- The number that the digits stand for.
abbrev read_on : ℕ → GoString → ℕ
read_on acc [] = acc
read_on acc (d ∷ ds) = read_on (acc * 10 + (d - 48)) ds

read_on-append : (acc : ℕ) (xs ys : GoString) → read_on acc (xs ++ ys) ≡ read_on (read_on acc xs) ys
read_on-append acc [] ys = refl
read_on-append acc (x ∷ xs) ys = read_on-append (acc * 10 + (x - 48)) xs ys

read_on-digits : (fuel n : ℕ) → n < fuel → read_on 0 (digits fuel n) ≡ n
unfolding digits
read_on-digits zero n lt = absurd (omega arith)
read_on-digits (suc fuel) n lt = elim (Bool-cases (ltb n 10)) [
  | inl small ↦ rw small (omega arith)
  | inr large ↦
      let front : read_on 0 (digits fuel (n / 10)) ≡ n / 10 =
        read_on-digits fuel (n / 10) (ground (arith, large, lt)) in
      rw large (
        read_on-append 0 (digits fuel (n / 10)) ((48 + n % 10) ∷ [])
        ∙ ap (λ k. k * 10 + (48 + n % 10 - 48)) front
        ∙ omega arith)
]

pub itoa_injective : (m n : ℕ) → itoa m ≡ itoa n → m ≡ n
unfolding itoa
itoa_injective m n e =
    sym (read_on-digits (suc m) m (omega arith))
    ∙ ap (read_on 0) e
    ∙ read_on-digits (suc n) n (omega arith)

-- ===== src/Base/Sums.antt =====
-- Families of values by number: a change at one number, and sums over the first `n`.
use Prim.Native.Nat.{ℕ, zero, suc, ◌+◌, ◌≤◌, ◌<◌}
use mathlib.Core.Path.{◌≡◌, refl, ap}
use mathlib.Core.Logic.{◌≢◌}
use native.Mathlib.Decide.{dec_lt}
use native.Mathlib.Omega.{arith}
use distributed_dns.Base.Tests.{◌==◌, if◌then◌else◌}

abbrev pub put_at {ℓ} : {A : Type ℓ} → (ℕ → A) → ℕ → A → ℕ → A
put_at f i a j = if i == j then a else f j

unfoldable pub sum : ℕ → (ℕ → ℕ) → ℕ
sum zero f = 0
sum (suc n) f = sum n f + f n

pub sum_eq : (n : ℕ) (f g : ℕ → ℕ) → ((j : ℕ) → j < n → f j ≡ g j) → sum n f ≡ sum n g
unfolding sum
sum_eq zero f g h = refl
sum_eq (suc n) f g h = omega (arith, h n (omega arith), sum_eq n f g (λ j lt. h j (omega arith)))

pub sum_le : (n : ℕ) (f : ℕ → ℕ) → ((j : ℕ) → j < n → f j ≤ 1) → sum n f ≤ n
unfolding sum
sum_le zero f h = omega arith
sum_le (suc n) f h = omega (arith, h n (omega arith), sum_le n f (λ j lt. h j (omega arith)))

pub sum_add : (n : ℕ) (f g : ℕ → ℕ) → sum n (λ j. f j + g j) ≡ sum n f + sum n g
unfolding sum
sum_add zero f g = omega arith
sum_add (suc n) f g = omega (arith, sum_add n f g)

-- Two families that differ at one number.
pub sum_change :
    (n i : ℕ) (f g : ℕ → ℕ) → i < n → ((j : ℕ) → j ≢ i → f j ≡ g j) → sum n f + g i ≡ sum n g + f i
unfolding sum
sum_change zero i f g lt h = absurd (omega arith)
sum_change (suc n) i f g lt h = elim (dec_lt i n) [
  | yes below ↦ omega (arith, sum_change n i f g below h, h n (λ e. omega arith))
  | no last ↦
      let same : n ≡ i = omega arith in
      let before : sum n f ≡ sum n g = sum_eq n f g (λ j lt'. h j (λ e. omega arith)) in
      omega (arith, before, ap f same, ap g same)
]

abbrev pub point : ℕ → ℕ → ℕ
point i j = if i == j then 1 else 0

sum-point_of_le : (n i : ℕ) → n ≤ i → sum n (point i) ≡ 0
unfolding sum
sum-point_of_le zero i h = refl
sum-point_of_le (suc n) i h = ground (arith, sum-point_of_le n i (omega arith))

pub sum-point : (n i : ℕ) → i < n → sum n (point i) ≡ 1
unfolding sum
sum-point zero i h = absurd (omega arith)
sum-point (suc n) i h = elim (dec_lt i n) [
  | yes below ↦ ground (arith, sum-point n i below)
  | no last ↦ ground (arith, sum-point_of_le n i (omega arith))
]

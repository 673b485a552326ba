-- ===== src/Base/Runs.antt =====
-- Runs of Go code that may not return: a run-time panic, or the end of the process.
use mathlib.Core.Path.{◌≡◌, refl, ap, subst}
use mathlib.Core.Bool.{Bool, true, false}
use distributed_dns.Base.Tests.{if◌then◌else◌}

pub data Fault : Type 0 where
  -- an index out of range, a missing element
  panic : Fault
  -- `os.Exit`, `log.Fatalf`
  exit : Fault

pub data Run {ℓ} (T : Type ℓ) : Type ℓ where
  fault : Fault → Run T
  ok : T → Run T

-- The run returns, with a result of this property.
abbrev pub Returns {ℓ κ} : {T : Type ℓ} → Run T → (T → Type κ) → Type (ℓ ⊔ κ)
Returns {T} run P = (result : T) × (run ≡ ok result) × P result

-- What follows a fault is not run.
abbrev pub ◌>>=◌ {ℓ κ} : {S : Type ℓ} {T : Type κ} → Run S → (S → Run T) → Run T
fault e >>= rest = fault e
ok a >>= rest = rest a

infixl 5 ◌>>=◌
-- Whatever result the run returns has this property.
abbrev pub Always {ℓ κ} : {T : Type ℓ} → (T → Type κ) → Run T → Type (ℓ ⊔ κ)
Always {T} P run = (result : T) → run ≡ ok result → P result

pub Always-bind {ℓ κ μ} :
    {S : Type ℓ} {T : Type κ} {P : T → Type μ} (run : Run S) (rest : S → Run T)
    → ((a : S) → run ≡ ok a → Always P (rest a))
    → Always P (run >>= rest)
Always-bind (fault e) rest h r same = cc
Always-bind (ok a) rest h r same = h a refl r same

abbrev result_or {ℓ} : {T : Type ℓ} → T → Run T → T
result_or a (ok b) = b
result_or a (fault e) = a

pub Always-ok {ℓ κ} : {T : Type ℓ} (P : T → Type κ) {a : T} → P a → Always P (ok a)
Always-ok P {a} p r same = subst P (ap (result_or a) same) p

pub Always-if {ℓ κ} :
    {T : Type ℓ} {P : T → Type κ} (b : Bool) (run other : Run T)
    → Always P run
    → Always P other
    → Always P (if b then run else other)
Always-if true run other p q = p
Always-if false run other p q = q

pub Always-cases {ℓ κ} :
    {T : Type ℓ} {P : T → Type κ} (b : Bool) (run other : Run T)
    → (b ≡ true → Always P run)
    → (b ≡ false → Always P other)
    → Always P (if b then run else other)
Always-cases true run other p q = p refl
Always-cases false run other p q = q refl

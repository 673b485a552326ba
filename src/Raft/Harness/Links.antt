-- ===== src/Raft/Harness/Links.antt =====
-- raft/testing_utils.go: `disconnect` and `connect`. The slices of stubs, of one place for each
-- replica, are functions of the replica that holds a stub and of its peer; nil is `none`.
use distributed_dns.Base.{
  ℕ, zero, suc, ◌+◌, ◌<◌, ◌≤◌, ◌≡◌, ◌≢◌, ◌⊎◌, inl, inr, refl, sym, ap, ◌∙◌, arith, Bool, true,
  false, Bool-cases, Option, Option-cases, none, some, put_at, ◌==◌, leb, ltb, not, ◌&&◌, ◌||◌,
  ==_iff, if◌then◌else◌,
}
pub mod Laws

pub record Links (C : Type 0) : Type 0 where
  pub clients : ℕ → ℕ → Option C
  pub backup : ℕ → ℕ → Option C

module _ {C : Type 0} where
  abbrev pub put : (ℕ → ℕ → Option C) → ℕ → ℕ → Option C → ℕ → ℕ → Option C
  put table i j c a b = if i == a && j == b then c else table a b

  -- The stub of `i` for `j` is moved to the backup, if there is one.
  unfoldable pub cut : ℕ → ℕ → Links C → Links C
  cut i j l = elim (l.clients i j) [
    | none ↦ l
    | some c ↦ record { clients = put l.clients i j none; backup = put l.backup i j (some c) }
  ]

  -- A stub that is nil is taken from the backup.
  unfoldable pub mend : ℕ → ℕ → Links C → Links C
  mend i j l = elim (l.clients i j) [
    | none ↦ record l { clients = put l.clients i j (l.backup i j) }
    | some c ↦ l
  ]

  -- The loop over the replicas from `i` on, with as many left: the outgoing stub and the incoming one.
  unfoldable pub each_peer : (ℕ → ℕ → Links C → Links C) → ℕ → ℕ → ℕ → ℕ → Links C → Links C
  each_peer change index self zero i l = l
  each_peer change index self (suc left) i l =
      each_peer change index self left (suc i)
        (if i == self then l else change i index (change index i l))

  -- With the number of replicas and the number that the metadata of the replica have.
  unfoldable pub disconnect : ℕ → ℕ → ℕ → Links C → Links C
  unfolding each_peer cut
  disconnect n self index l = each_peer cut index self n 0 l

  unfoldable pub connect : ℕ → ℕ → ℕ → Links C → Links C
  unfolding each_peer mend
  connect n self index l = each_peer mend index self n 0 l

-- ===== src/Raft/Client/Reads.antt =====
-- raft/client.go: a whole `ReadCommand`: the wait until everything committed is applied, the heartbeats
-- of `StaleReadCheck`, and the read of the local store.
use distributed_dns.Base.{
  ◌+◌, ◌*◌, ◌≤◌, ◌<◌, ◌≡◌, ◌↔◌, inl, inr, refl, sym, ap, ◌∙◌, arith, Bool, true, false, Bool-cases,
  Option, Option-cases, none, some, some_injective, List, [], ◌∷◌, length, GoString, if◌then◌else◌,
}
use distributed_dns.Base.Int.{eqb_ℤ, eqb_ℤ_iff}
use distributed_dns.Raft.Node.{RaftNode, Replica}
use distributed_dns.Raft.States.{is_leader}
use distributed_dns.Raft.Quorum.{count_outcomes, new_tally, received, trues, received-majority}
use distributed_dns.Raft.Client.{
  ClientError, HttpResult, body, no_answer, broken_body, read_command,
}

-- The loop at the start, with what other goroutines do in each sleep; none when it still waits.
unfoldable pub await_applied : List (Replica → Replica) → Replica → Option Replica
await_applied [] w = if eqb_ℤ w.node.commit_index w.node.last_applied then some w else none
await_applied (others ∷ sleeps) w =
    let later = await_applied sleeps (others w) in
    if eqb_ℤ w.node.commit_index w.node.last_applied then some w else later

-- What happens during a read: in the sleeps, at the ends of the goroutines of `StaleReadCheck` in their
-- order, until the lock is taken again, and at the local store.
pub record Read : Type 0 where
  pub sleeps : List (Replica → Replica)
  pub outcomes : List Bool
  pub others : Replica → Replica
  pub answer : HttpResult

-- After the wait: the first verdict of `StaleReadCheck`, and the read.
unfoldable pub read_checked : Read → Replica → Option (GoString × Option ClientError)
read_checked r v =
    elim (received (count_outcomes v.node.meta.n_replicas new_tally r.outcomes).sent) [
      | none ↦ none
      | some status ↦ some (read_command status r.answer (r.others v).node)
    ]

unfoldable pub read_key : Read → Replica → Option (GoString × Option ClientError)
unfolding await_applied read_checked
read_key r w = elim (await_applied r.sleeps w) [ none ↦ none | some v ↦ read_checked r v ]

-- The read is confirmed by a majority of the replicas, at a leader that applied what it committed.
pub record Confirmed (r : Read) (w : Replica) (contents : GoString) : Type 0 where
  pub replica : Replica
  pub waited : await_applied r.sleeps w ≡ some replica
  pub caught_up : replica.node.commit_index ≡ replica.node.last_applied
  pub majority : replica.node.meta.n_replicas < 2 * (trues r.outcomes + 1)
  pub leads : is_leader (r.others replica).node.state ≡ true
  pub stored : r.answer ≡ body contents

none-some {ℓ} : {A : Type ℓ} {a : A} → some a ≡ none → ⊥
none-some e = ground arith

pub await_applied-eq :
    (sleeps : List (Replica → Replica)) (w v : Replica)
    → await_applied sleeps w ≡ some v
    → v.node.commit_index ≡ v.node.last_applied
unfolding await_applied
await_applied-eq [] w v h = elim (Bool-cases (eqb_ℤ w.node.commit_index w.node.last_applied)) [
  | inl caught ↦ rw (← some_injective (rw caught at h)) ((eqb_ℤ_iff _ _).0 caught)
  | inr behind ↦ absurd (none-some (sym (rw behind at h)))
]
await_applied-eq (others ∷ sleeps) w v h =
    elim (Bool-cases (eqb_ℤ w.node.commit_index w.node.last_applied)) [
      | inl caught ↦ rw (← some_injective (rw caught at h)) ((eqb_ℤ_iff _ _).0 caught)
      | inr behind ↦ await_applied-eq sleeps (others w) v (rw behind at h)
    ]

pub read_command-contents :
    (status : Bool) (answer : HttpResult) (n : RaftNode) (contents : GoString)
    → (read_command status answer n ≡ (contents, none))
      ↔ ((status ≡ true) × (is_leader n.state ≡ true) × (answer ≡ body contents))
unfolding read_command
read_command-contents false answer n contents =
    (λ h. absurd (none-some (ap (λ p. p.1) h)), λ (e, _, _). absurd (ground arith))
read_command-contents true (body c) n contents = elim (Bool-cases (is_leader n.state)) [
  | inl lead ↦ rw lead (
    λ h. (refl, refl, ap body (ap (λ p. p.0) h)),
    λ (_, _, e). let same : c ≡ contents = cc in rw same refl,
  )
  | inr other ↦
      rw other (λ h. absurd (none-some (ap (λ p. p.1) h)), λ (_, e, _). absurd (ground arith))
]
read_command-contents true (no_answer err) n contents = elim (Bool-cases (is_leader n.state)) [
  | inl lead ↦
      rw lead (λ h. absurd (none-some (ap (λ p. p.1) h)), λ (_, _, e). absurd (ground arith))
  | inr other ↦
      rw other (λ h. absurd (none-some (ap (λ p. p.1) h)), λ (_, e, _). absurd (ground arith))
]
read_command-contents true (broken_body err) n contents = elim (Bool-cases (is_leader n.state)) [
  | inl lead ↦
      rw lead (λ h. absurd (none-some (ap (λ p. p.1) h)), λ (_, _, e). absurd (ground arith))
  | inr other ↦
      rw other (λ h. absurd (none-some (ap (λ p. p.1) h)), λ (_, e, _). absurd (ground arith))
]

read_checked-contents :
    (r : Read) (v : Replica) (contents : GoString)
    → (read_checked r v ≡ some (contents, none)) ↔ (
        (received (count_outcomes v.node.meta.n_replicas new_tally r.outcomes).sent ≡ some true)
        × (is_leader (r.others v).node.state ≡ true)
        × (r.answer ≡ body contents))
unfolding read_checked
read_checked-contents r v contents =
    elim (Option-cases
      (received (count_outcomes v.node.meta.n_replicas new_tally r.outcomes).sent)) [
        | inl nothing ↦
            rw (nothing, read_checked)
              (λ h. absurd (none-some (sym h)), λ (e, _, _). absurd (none-some (sym e)))
        | inr (status, sent) ↦
            let read = read_command-contents status r.answer (r.others v).node contents in
            rw (sent, read_checked)
              (
                λ h. let (e, e', e'') = read.0 (some_injective h) in (ap some e, e', e''),
                λ (e, e', e''). ap some (read.1 (some_injective e, e', e'')),
              )
      ]

read_key-none : (r : Read) (w : Replica) → await_applied r.sleeps w ≡ none → read_key r w ≡ none
unfolding read_key
read_key-none r w waits = rw (waits, read_key) refl

read_key-some :
    (r : Read) (w v : Replica) → await_applied r.sleeps w ≡ some v → read_key r w ≡ read_checked r v
unfolding read_key
read_key-some r w v waited = rw (waited, read_key) refl

-- `ReadCommand` returns a text without an error exactly if a replica that has applied all that it
-- committed, once it waited for that, finds that itself and the replicas that answered its
-- heartbeats are a majority, leads when it holds the lock again, and its store answers with that
-- text. There are at least two replicas, and outcomes of at most all the others.
pub read_key-Confirmed :
    (r : Read) (w : Replica) (contents : GoString)
    → ((v : Replica)
        → await_applied r.sleeps w ≡ some v
        → (2 ≤ v.node.meta.n_replicas) × (length r.outcomes + 1 ≤ v.node.meta.n_replicas))
    → (read_key r w ≡ some (contents, none)) ↔ Confirmed r w contents
read_key-Confirmed r w contents sizes = elim (Option-cases (await_applied r.sleeps w)) [
  | inl waits ↦
      rw (read_key-none r w waits)
        (λ h. absurd (none-some (sym h)), λ c. absurd (none-some (sym c.waited ∙ waits)))
  | inr (v, waited) ↦
      let (two, few) = sizes v waited in
      let quorum = received-majority v.node.meta.n_replicas r.outcomes two few in
      let read = read_checked-contents r v contents in
      rw (read_key-some r w v waited) (
        λ h.
            let (sent, leads, stored) = read.0 h in
            record {
              replica = v;
              waited = waited;
              caught_up = await_applied-eq r.sleeps w v waited;
              majority = quorum.0 sent;
              leads = leads;
              stored = stored;
            },
        λ c.
            let same : c.replica ≡ v = some_injective (sym c.waited ∙ waited) in
            read.1 (quorum.1 (rw same at c.majority), rw same at c.leads, c.stored),
      )
]

-- ===== src/Raft/Connect/Resume.antt =====
-- A replica that connects to its peers, and the entries that it still has to apply.
use distributed_dns.Base.{
  ℕ, zero, suc, ◌+◌, ◌<◌, ◌≤◌, ◌^◌, ◌-◌, ◌≡◌, inl, inr, refl, ap, ◌∙◌, arith, Bool, true, false,
  Bool-cases, Option, some, List, ◌∷◌, length, get_elem?, get_elem?-of_lt, get_elem?-set,
  length-set, set, ltb, replicate, length-replicate, not, ◌&&◌, ◌==◌, if◌then◌else◌, GoString,
  Returns,
}
use distributed_dns.Base.Int.{ℤ, pos, negsuc, minus_one, ◌≤ℤ◌, ltb_ℤ, sub32, wrap32, ◌-ℤ◌}
use distributed_dns.Raft.Node.{follower, Replica, commits_ready, run_timer}
use distributed_dns.Raft.Invariant.{IsWellFormed, start_of}
use distributed_dns.Raft.Apply.{StoreRequest, apply_commits}
use distributed_dns.Raft.Apply.Laws.{AllOperations}
use distributed_dns.Raft.Apply.Round.{start_of-le, Round, apply_commits-Round}
use distributed_dns.Raft.Connect.{is_follower, dial_loop, proceed, connect_to_peer_replicas}

get_elem?-replicate : {A : Type 0} (n i : ℕ) (a : A) → i < n → get_elem? (replicate n a) i ≡ some a
get_elem?-replicate zero i a lt = absurd (omega (arith, lt))
get_elem?-replicate (suc n) zero a lt = refl
get_elem?-replicate (suc n) (suc i) a lt = get_elem?-replicate n i a (omega (arith, lt))

module _ (dials : GoString → Bool) (rep_addrs : List GoString)
    (all : (i : ℕ) (addr : GoString) → get_elem? rep_addrs i ≡ some addr → dials addr ≡ true) where
  -- The stubs are there up to replica `i`, but for its own.
  abbrev Filled : ℕ → ℕ → ℕ → List Bool → Type 0
  Filled self n i clients =
      (length clients ≡ n)
      × ((j : ℕ) → j < n → get_elem? clients j ≡ some (ltb j i && not (j == self)))

  next_stub :
      (self i : ℕ) (clients : List Bool) (j : ℕ)
      → i < length clients
      → get_elem? clients j ≡ some (ltb j i && not (j == self))
      → (i == self) ≡ false
      → get_elem? (set clients i true) j ≡ some (ltb j (suc i) && not (j == self))
  next_stub self i clients j lt was other =
      get_elem?-set clients i j true lt ∙ (elim (Bool-cases (i == j)) [
        | inl here ↦ rw here (ap some (ground arith))
        | inr there ↦ rw there (was ∙ ap some (ground arith))
      ])

  dial_loop-Filled :
      (self n left i : ℕ) (clients : List Bool)
      → i + left ≡ n
      → n ≤ length rep_addrs
      → Filled self n i clients
      → Returns (dial_loop dials rep_addrs self left i clients) (Filled self n n)
  unfolding dial_loop
  dial_loop-Filled self n zero i clients e enough filled =
      let done : i ≡ n = omega (arith, e) in (clients, refl, rw done at filled)
  dial_loop-Filled self n (suc left) i clients e enough filled = elim (Bool-cases (i == self)) [
    | inl own ↦
        let (r, run, end) =
          dial_loop-Filled self n left (suc i) clients (omega (arith, e)) enough
            (filled.0, λ j lt. filled.1 j lt ∙ ap some (ground arith)) in
        (r, rw own run, end)
    | inr other ↦
        let (addr, at) = get_elem?-of_lt rep_addrs i (omega (arith, e, enough)) in
        let (r, run, end) =
          dial_loop-Filled self n left (suc i) (set clients i true) (omega (arith, e)) enough (
            length-set clients i true ∙ filled.0,
            λ j lt. next_stub self i clients j (omega (arith, filled.0, e)) (filled.1 j lt) other,
          ) in
        (r, rw (other, at, all i addr at) run, end)
  ]

sub32-start_of :
    (c a : ℤ)
    → minus_one ≤ℤ a
    → a ≤ℤ c
    → start_of c < 2 ^ 31
    → sub32 c a ≡ pos (start_of c - start_of a)
unfolding sub32 wrap32 ◌-ℤ◌
sub32-start_of (pos p) (pos q) low le lt = ground arith
sub32-start_of (pos p) (negsuc zero) low le lt = ground arith
sub32-start_of (negsuc p) (pos q) low le lt = absurd (omega arith)
sub32-start_of (negsuc zero) (negsuc zero) low le lt = refl
sub32-start_of (negsuc (suc p)) (negsuc zero) low le lt = absurd (omega arith)
sub32-start_of c (negsuc (suc q)) low le lt = absurd (omega arith)

-- The entries that are committed and not applied.
abbrev pub behind : Replica → ℕ
behind w = start_of w.node.commit_index - start_of w.node.last_applied

behind-lem : (c a : ℤ) → minus_one ≤ℤ a → a ≤ℤ c → ltb 0 (start_of c - start_of a) ≡ ltb_ℤ a c
behind-lem (pos p) (pos q) low le = ground arith
behind-lem (pos p) (negsuc zero) low le = ground arith
behind-lem (negsuc p) (pos q) low le = absurd (omega arith)
behind-lem (negsuc zero) (negsuc zero) low le = refl
behind-lem (negsuc (suc p)) (negsuc zero) low le = absurd (omega arith)
behind-lem c (negsuc (suc q)) low le = absurd (omega arith)

reach : (c a : ℤ) → a ≤ℤ c → start_of a + (start_of c - start_of a) ≡ start_of c
reach (pos p) (pos q) le = omega arith
reach (pos p) (negsuc q) le = omega arith
reach (negsuc p) (pos q) le = absurd (omega arith)
reach (negsuc p) (negsuc q) le = omega arith

-- What `ConnectToPeerReplicas` leaves at a follower: stubs for the others, the signal, the timer.
pub record Resumed (w w' : Replica) : Type 0 where
  pub stubs :
      (j : ℕ)
      → j < w.node.meta.n_replicas
      → get_elem? w'.node.meta.peer_replica_clients j ≡ some (not (j == w.node.meta.replica_id))
  pub told :
      w'.effects
      ≡ run_timer
        ∷ (if ltb 0 (behind w) then commits_ready (pos (behind w)) ∷ w.effects else w.effects)
  pub valid : IsWellFormed w'.node
  pub kept :
      (w'.node.last_applied ≡ w.node.last_applied)
      × (w'.node.log ≡ w.node.log)
      × (w'.node.commit_index ≡ w.node.commit_index)
  pub same :
      (w'.node.current_term ≡ w.node.current_term)
      × (w'.node.voted_for ≡ w.node.voted_for)
      × (w'.node.state ≡ w.node.state)

proceed-Resumed :
    (w : Replica) (clients : List Bool)
    → IsWellFormed w.node
    → w.node.state ≡ follower
    → ((j : ℕ)
        → j < w.node.meta.n_replicas
        → get_elem? clients j ≡ some (not (j == w.node.meta.replica_id)))
    → Resumed w (
        proceed (record w {
          node = record w.node { meta = record w.node.meta { peer_replica_clients = clients } };
        }))
unfolding proceed
proceed-Resumed w clients wf idle stubs =
    let w' : Replica = record w {
      node = record w.node { meta = record w.node.meta { peer_replica_clients = clients } };
    } in
    let waits : is_follower w.node.state ≡ true = ap is_follower idle in
    let left = behind-lem w.node.commit_index w.node.last_applied wf.applied wf.ordered in
    elim (Bool-cases (ltb_ℤ w.node.last_applied w.node.commit_index)) [
      | inl late ↦
          let some_left : ltb 0 (behind w) ≡ true = left ∙ late in
          let count = sub32-start_of w.node.commit_index w.node.last_applied wf.applied wf.ordered (
            omega
              (arith, start_of-le w.node.commit_index (length w.node.log) wf.within, wf.fits)) in
          rw (waits, late)
            (record {
              stubs = stubs;
              told = rw (some_left, count) refl;
              valid = record {
                fits = wf.fits;
                applied = wf.applied;
                ordered = wf.ordered;
                within = wf.within;
              };
              kept = (refl, refl, refl);
              same = (refl, refl, refl);
            })
      | inr done ↦
          let none_left : ltb 0 (behind w) ≡ false = left ∙ done in
          rw (waits, done)
            (record {
              stubs = stubs;
              told = rw none_left refl;
              valid = record {
                fits = wf.fits;
                applied = wf.applied;
                ordered = wf.ordered;
                within = wf.within;
              };
              kept = (refl, refl, refl);
              same = (refl, refl, refl);
            })
    ]

module _ (dials : GoString → Bool) (rep_addrs : List GoString)
    (all : (i : ℕ) (addr : GoString) → get_elem? rep_addrs i ≡ some addr → dials addr ≡ true) where
  pub connect-Resumed :
      (w : Replica)
      → IsWellFormed w.node
      → w.node.state ≡ follower
      → w.node.meta.n_replicas ≤ length rep_addrs
      → Returns (connect_to_peer_replicas dials rep_addrs w) (Resumed w)
  unfolding connect_to_peer_replicas
  connect-Resumed w wf idle enough =
      let n = w.node.meta.n_replicas in
      let self = w.node.meta.replica_id in
      let (clients, run, filled) =
        dial_loop-Filled dials rep_addrs all self n n 0 (replicate n false) (omega arith) enough (
          length-replicate n false,
          λ j lt. get_elem?-replicate n j false lt ∙ ap some (ground arith),
        ) in
      (
        proceed (record w {
          node = record w.node { meta = record w.node.meta { peer_replica_clients = clients } };
        }),
        rw run refl,
        proceed-Resumed w clients wf idle (λ j lt. filled.1 j lt ∙ ap some (ground arith)),
      )

-- A round of the applier for what it is told then.
module _ {S : Type 0} (http : StoreRequest → S → S × Bool) where
  pub Resumed-applies :
      (w w' : Replica) (rs : List (Option StoreRequest)) (s : S)
      → Resumed w w'
      → IsWellFormed w.node
      → AllOperations w.node.log rs
      → Returns (apply_commits http (pos (behind w)) w' s) (Round http (behind w) rs w' s)
        × (start_of w'.node.last_applied + behind w ≡ start_of w'.node.commit_index)
  Resumed-applies w w' rs s resumed wf operations =
      let (applied, log, commit) = resumed.kept in
      let reaches : start_of w'.node.last_applied + behind w ≡ start_of w'.node.commit_index =
        rw (applied, commit) (reach w.node.commit_index w.node.last_applied wf.ordered) in
      (
        apply_commits-Round http (behind w) w' rs s resumed.valid (rw log operations)
            (omega (arith, reaches)),
        reaches,
      )

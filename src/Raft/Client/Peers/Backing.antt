-- ===== src/Raft/Client/Peers/Backing.antt =====
-- What stands behind a write that `WriteCommand` acknowledges.
use distributed_dns.Base.{
  ℕ, suc, ◌<◌, ◌≡◌, refl, Bool, true, ◌&&◌, Option-cases, inl, inr, none, some, List, [], ◌∷◌, ◌++◌,
  insert, length, get_elem?, GoString, ok, Always, Always-bind, Always-ok, Always-if, Always-cases,
}
use distributed_dns.Base.Int.{ℤ, pos, add32}
use distributed_dns.Raft.Node.{Replica, Fits, commits_ready}
use distributed_dns.Raft.Invariant.{IsDurable}
use distributed_dns.Raft.Persist.{store_node-Keeps}
use distributed_dns.Raft.States.{is_leader}
use distributed_dns.Raft.Replicate.Converge.{Link, answer, with_both}
use distributed_dns.Raft.Replicate.Broadcast.Majority.{CanSend, MajorityHas}
use distributed_dns.Raft.Client.{
  ClientError, entry_of, appended, commit_operation, is_duplicate, needs_value, says_no_value,
}
use distributed_dns.Raft.Client.Reads.{await_applied, await_applied-eq}
use distributed_dns.Raft.Client.Submit.{Submission, submit}
use distributed_dns.Raft.Client.Submit.Majority.{Acknowledges, submit-Acknowledges}
use distributed_dns.Raft.Client.Peers.{Write, sender, write_locked, write_key}

-- A leader that can add an entry and send it to its peers.
pub record CanAdd (fuel : ℕ) (operation : List GoString) (client : GoString) (u : Replica)
    (links : ℕ → Link) : Type 0 where
  pub some_log : 0 < length u.node.log
  pub fits : Fits u.node.log
  pub sends : CanSend (appended operation client u) (length u.node.log) links
  pub enough : suc (length u.node.log) < fuel

-- A majority with the replica `u` has the entry at its index, and `u` ends as `w'`: the entry is the last
-- of its log, its commit index is one more, it knows the client's last operation, the applier is told
-- of one entry, and the file holds the node.
pub record Backed (operation : List GoString) (client : GoString) (u w' : Replica)
    (after : ℕ → Link) : Type 0 where
  pub behind :
      MajorityHas
        (λ j.
          get_elem? (after j).0.node.log (length u.node.log)
          ≡ some (entry_of operation client u.node))
        u
  pub log : w'.node.log ≡ u.node.log ++ entry_of operation client u.node ∷ []
  pub commit : w'.node.commit_index ≡ add32 u.node.commit_index (pos 1)
  pub tracked : w'.node.track_message ≡ insert client operation u.node.track_message
  pub told : w'.effects ≡ commits_ready (pos 1) ∷ u.effects
  pub durable : IsDurable w'

commit_operation-Backed :
    (operation : List GoString) (client : GoString) (u : Replica) (nexts matches : List ℤ)
    (after : ℕ → Link)
    → MajorityHas
        (λ j.
          get_elem? (after j).0.node.log (length u.node.log)
          ≡ some (entry_of operation client u.node))
        u
    → Backed operation client u
        (commit_operation operation client (with_both (appended operation client u) nexts matches))
        after
unfolding commit_operation
commit_operation-Backed operation client u nexts matches after m = record {
  behind = m;
  log = refl;
  commit = refl;
  tracked = refl;
  told = refl;
  durable = (_, refl, store_node-Keeps _ _);
}

-- Where there is no error, the write is backed; `P` holds of the replica that adds the entry.
abbrev IsFair : List GoString → GoString → (Replica → Type 0) → Submission Link → Type 0
IsFair operation client P none = Unit
IsFair operation client P (some ((w', some err), after)) = Unit
IsFair operation client P (some ((w', none), after)) =
    (u : Replica) × P u × Backed operation client u w' after

module _ (fuel : ℕ) (operation : List GoString) (client : GoString) (links : ℕ → Link) where
  -- The end of a submission.
  submission-IsFair :
      (P : Replica → Type 0) (u : Replica) (r : Submission Link)
      → P u
      → Acknowledges operation client u links r
      → (r' : Submission Link) → r ≡ r'
      → IsFair operation client P r'
  submission-IsFair P u r p a none e = tt
  submission-IsFair P u r p a (some ((w', some err), peers)) e = tt
  submission-IsFair P u r p a (some ((w', none), peers)) e =
      let (same, committed, m) = a.backed w' peers e in
      rw (same, committed)
        (u, p, commit_operation-Backed operation client u a.nexts a.matches a.after m)

  submit-IsFair :
      (P : Replica → Type 0) (u : Replica)
      → P u
      → CanAdd fuel operation client u links
      → Always (IsFair operation client P) (submit answer fuel operation client u links)
  submit-IsFair P u p c =
      let (r, run, a) =
        submit-Acknowledges fuel operation client u links c.some_log c.fits c.sends c.enough in
      rw run (Always-ok (IsFair operation client P) (submission-IsFair P u r p a r refl))

  module _ (wr : Write) (P : Replica → Type 0) where
    error-IsFair :
        (u : Replica) (err : ClientError)
        → Always (IsFair operation client P) (ok (some ((u, some err), links)))
    error-IsFair u err = Always-ok (IsFair operation client P) tt

    write_locked-IsFair :
        (u : Replica)
        → ((needs : Bool)
            → needs_value operation ≡ ok needs
            → is_leader u.node.state ≡ true
            → P (sender needs wr u) × CanAdd fuel operation client (sender needs wr u) links)
        → Always (IsFair operation client P) (write_locked answer fuel operation client wr u links)
    unfolding write_locked
    write_locked-IsFair u can =
        Always-cases (is_leader u.node.state) _ _
          (λ leads. Always-bind (is_duplicate operation client u.node) _ λ equal _.
            Always-if equal _ _ (error-IsFair _ _) (
              Always-bind (needs_value operation) _ λ needs found.
                Always-if (needs && says_no_value wr.read) _ _ (error-IsFair _ _) (
                  let (p, adds) = can needs found leads in
                  submit-IsFair P (sender needs wr u) p adds)))
          (λ _. error-IsFair _ _)

    write_key-IsFair :
        (w : Replica)
        → ((v : Replica) (needs : Bool)
            → await_applied wr.sleeps w ≡ some v
            → needs_value operation ≡ ok needs
            → is_leader (wr.relocking v).node.state ≡ true
            → P (sender needs wr (wr.relocking v))
              × CanAdd fuel operation client (sender needs wr (wr.relocking v)) links)
        → Always (IsFair operation client P) (write_key answer fuel operation client wr w links)
    unfolding write_key
    write_key-IsFair w can = elim (Option-cases (await_applied wr.sleeps w)) [
      | inl waits ↦ rw (waits, write_key) (Always-ok (IsFair operation client P) {a = none} tt)
      | inr (v, waited) ↦
          rw (waited, write_key)
            (write_locked-IsFair (wr.relocking v)
              (λ needs found leads. can v needs waited found leads))
    ]

-- How the replica `u` comes to add the entry: it led when it got the lock, after a wait to the end.
pub record Sends (operation : List GoString) (wr : Write) (w u : Replica) : Type 0 where
  pub waited_to : Replica
  pub waits : await_applied wr.sleeps w ≡ some waited_to
  pub caught_up : waited_to.node.commit_index ≡ waited_to.node.last_applied
  pub leads : is_leader (wr.relocking waited_to).node.state ≡ true
  pub needs : Bool
  pub finds : needs_value operation ≡ ok needs
  pub same : u ≡ sender needs wr (wr.relocking waited_to)

-- A write that the whole of `WriteCommand` acknowledges was added by a replica that led when it
-- took the lock, after it had applied all that it committed: that replica and other ones, each
-- counted once, which end with the entry at its index, are a majority. It ends with the entry as
-- the last of its log, a commit index that is one more (in `int32`), the operation as its client's
-- last, a signal of one entry for the applier, and its file holds it. Every replica that can come
-- to add the entry here has an entry in its log, room for one more, and can send to its peers,
-- whose connections may lose requests and replies.
pub write_key-Backed :
    (fuel : ℕ) (operation : List GoString) (client : GoString) (wr : Write) (w : Replica)
    (links : ℕ → Link)
    → ((u : Replica) → Sends operation wr w u → CanAdd fuel operation client u links)
    → (w' : Replica) (after : ℕ → Link)
    → write_key answer fuel operation client wr w links ≡ ok (some ((w', none), after))
    → (u : Replica) × Sends operation wr w u × Backed operation client u w' after
write_key-Backed fuel operation client wr w links can w' after run =
    write_key-IsFair fuel operation client links wr (Sends operation wr w) w
      (λ v needs waits found leads.
        let s : Sends operation wr w (sender needs wr (wr.relocking v)) = record {
          waited_to = v;
          waits = waits;
          caught_up = await_applied-eq wr.sleeps w v waits;
          leads = leads;
          needs = needs;
          finds = found;
          same = refl;
        } in
        (s, can (sender needs wr (wr.relocking v)) s))
      (some ((w', none), after)) run

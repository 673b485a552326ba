-- ===== src/Raft/Client/Submit/Majority.antt =====
-- Which writes are acknowledged.
use distributed_dns.Base.{
  ℕ, suc, ◌+◌, ◌*◌, ◌<◌, ◌≡◌, refl, sym, ap, ◌∙◌, arith, Bool, true, false, Option, none, some,
  some_injective, List, [], ◌∷◌, ◌++◌, length, length-append, get_elem?, get_elem?-append_last,
  GoString, Returns,
}
use distributed_dns.Base.Int.{ℤ, pos, sub32, sub32-suc, int32-of_lt}
use distributed_dns.Raft.Protos.{LogEntry}
use distributed_dns.Raft.Node.{Replica, Fits, log_len}
use distributed_dns.Raft.Quorum.{received}
use distributed_dns.Raft.Replicate.{base_message}
use distributed_dns.Raft.Replicate.Converge.{Link, answer, with_both}
use distributed_dns.Raft.Replicate.Broadcast.Targets.{Each-map}
use distributed_dns.Raft.Replicate.Broadcast.Majority.{
  CanSend, MajorityHas, reliable, targets_of, leader_send_aes-Replicated,
}
use distributed_dns.Raft.Client.{entry_of, appended, commit_operation, Outcome}
use distributed_dns.Raft.Client.Writes.{append_operation_run}
use distributed_dns.Raft.Client.Submit.{conclude, submit}

-- When the write is acknowledged: only if a majority has the entry at its index, and if the leader and
-- the connections that lose no call are a majority.
pub record Acknowledges (operation : List GoString) (client : GoString) (w : Replica)
    (links : ℕ → Link) (r : Option (Outcome × (ℕ → Link))) : Type 0 where
  pub after : ℕ → Link
  pub nexts : List ℤ
  pub matches : List ℤ
  pub verdict : Option Bool
  pub result :
      r
      ≡ conclude operation client
          (with_both (appended operation client w) nexts matches)
          verdict
          after
  pub backed :
      (w' : Replica) (peers : ℕ → Link)
      → r ≡ some ((w', none), peers)
      → (peers ≡ after)
        × (w'
            ≡ commit_operation operation client
                (with_both (appended operation client w) nexts matches))
        × MajorityHas
            (λ j.
              get_elem? (after j).0.node.log (length w.node.log)
              ≡ some (entry_of operation client w.node))
            w
  pub complete :
      w.node.meta.n_replicas < 2 * (reliable links (targets_of w) + 1)
      → r
        ≡ some (
          (
            commit_operation operation client
                (with_both (appended operation client w) nexts matches),
            none,
          ),
          after,
        )

nothing {ℓ} : {A : Type ℓ} {a : A} → some a ≡ none → ⊥
nothing e = ground arith

-- An acknowledgement comes from a verdict of true.
conclude-none :
    {F : Type 0} (operation : List GoString) (client : GoString) (w : Replica) (v : Option Bool)
    (peers : ℕ → F) (w' : Replica) (peers' : ℕ → F)
    → conclude operation client w v peers ≡ some ((w', none), peers')
    → (v ≡ some true) × (peers' ≡ peers) × (w' ≡ commit_operation operation client w)
unfolding conclude
conclude-none operation client w none peers w' peers' h = absurd (nothing (sym h))
conclude-none operation client w (some true) peers w' peers' h =
    let same = some_injective h in (refl, sym (ap (λ p. p.1) same), sym (ap (λ p. p.0.0) same))
conclude-none operation client w (some false) peers w' peers' h =
    absurd (nothing (ap (λ o. o.1) (ap (λ p. p.0) (some_injective h))))

conclude-true :
    {F : Type 0} (operation : List GoString) (client : GoString) (w : Replica) {v : Option Bool}
    (peers : ℕ → F)
    → v ≡ some true
    → conclude operation client w v peers
      ≡ some ((commit_operation operation client w, none), peers)
unfolding conclude
conclude-true operation client w peers e = rw e refl

last_upper :
    (log : List LogEntry) (e : LogEntry)
    → Fits log
    → sub32 (log_len (log ++ e ∷ [])) (pos 1) ≡ pos (length log)
last_upper log e fits =
    let size : length (log ++ e ∷ []) ≡ suc (length log) =
      omega (arith, length-append log (e ∷ [])) in
    ap (λ i. sub32 i (pos 1))
      (int32-of_lt (length (log ++ e ∷ [])) (omega (arith, size, fits)) ∙ ap pos size)
    ∙ sub32-suc (length log) fits

pub submit-Acknowledges :
    (fuel : ℕ) (operation : List GoString) (client : GoString) (w : Replica) (links : ℕ → Link)
    → 0 < length w.node.log
    → Fits w.node.log
    → CanSend (appended operation client w) (length w.node.log) links
    → suc (length w.node.log) < fuel
    → Returns (submit answer fuel operation client w links) (Acknowledges operation client w links)
unfolding submit
submit-Acknowledges fuel operation client w links some_log fits can enough =
    let v = appended operation client w in
    let upper = last_upper w.node.log (entry_of operation client w.node) fits in
    let (r, run, rep) =
      leader_send_aes-Replicated fuel v (length w.node.log) (base_message v.node) links can refl
        enough in
    (
      conclude operation client (with_both v rep.nexts rep.matches) (received rep.tally.sent)
          rep.after,
      simp (append_operation_run operation client w fits some_log, upper, run, rep.result),
      record {
        after = rep.after;
        nexts = rep.nexts;
        matches = rep.matches;
        verdict = received rep.tally.sent;
        result = refl;
        backed = λ w' peers h.
            let (sent, same, committed) =
              conclude-none operation client (with_both v rep.nexts rep.matches)
                (received rep.tally.sent) rep.after w' peers h in
            let m = rep.backed sent in
            (
              same,
              committed,
              record {
                held = m.held;
                once = m.once;
                others = m.others;
                has =
                    Each-map m.held
                      (λ j agrees.
                        agrees (length w.node.log) (omega arith)
                        ∙ get_elem?-append_last w.node.log (entry_of operation client w.node))
                      m.has;
                majority = m.majority;
              },
            );
        complete = λ lt.
            conclude-true operation client (with_both v rep.nexts rep.matches) rep.after
              (rep.complete lt);
      },
    )

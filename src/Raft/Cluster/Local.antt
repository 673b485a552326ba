-- ===== src/Raft/Cluster/Local.antt =====
-- The other operations of a replica, each under its lock.
use distributed_dns.Base.{
  ℕ, ◌≡◌, inl, inr, refl, arith, Bool, true, Bool-cases, List, GoString, ok, ◌>>=◌,
}
use distributed_dns.Base.Int.{ℤ, pos, ltb_ℤ, add32, sub32}
use distributed_dns.Raft.Protos.{LogEntry, AppendEntriesMessage, AppendEntriesResponse}
use distributed_dns.Raft.Node.{Replica, persist, entry_at, log_len}
use distributed_dns.Raft.Persist.{store_node-Keeps}
use distributed_dns.Raft.States.{is_leader}
use distributed_dns.Raft.Election.Lead.{commit_no_op}
use distributed_dns.Raft.Client.{appended, append_operation, commit_operation}
use distributed_dns.Raft.Replicate.{
  Next, return, retry, base_message, copy_entries, term_before, read_at, write_at, handle_refusal,
  handle_success, handle_reply,
}
use distributed_dns.Raft.Apply.{StoreRequest, slice, apply_loop, apply_commits}
use distributed_dns.Raft.Cluster.Effects.{
  Rests, Proceeds, Rests-Proceeds, Rests-of, bind_ok, ok_injective, ok_first, to_follower-Proceeds,
  persist-IsVoteSaved,
}

-- The replica after a reply to `LeaderSendAE`.
abbrev pub replica_after : Next → Replica
replica_after (return outcome w) = w
replica_after (retry msg w) = w

module _ {S : Type 0} (http : StoreRequest → S → S × Bool) where
  -- A write is added to the log, or counts as committed; a NO-OP counts as committed; a reply to
  -- `AppendEntries` is handled; committed entries are applied; the stubs are filled.
  pub data Local (w : Replica) : Replica → Type 0 where
    write :
        (op : List GoString) (client : GoString) {w' : Replica}
        → append_operation op client w ≡ ok w'
        → Local w w'
    commit : (op : List GoString) (client : GoString) → Local w (commit_operation op client w)
    lead : Local w (commit_no_op w)
    send :
        (id : ℕ) (upper : ℤ) (msg : AppendEntriesMessage) (response : AppendEntriesResponse)
        {next : Next}
        → handle_reply id upper msg response w ≡ ok next
        → Local w (replica_after next)
    apply : (k : ℤ) (s : S) {r : Replica × S} → apply_commits http k w s ≡ ok r → Local w r.0
    connect :
        (stubs : List Bool)
        → Local w (record w {
          node = record w.node { meta = record w.node.meta { peer_replica_clients = stubs } };
        })

  append_operation-Rests :
      (op : List GoString) (client : GoString) (w w' : Replica)
      → append_operation op client w ≡ ok w'
      → Rests w w'
  unfolding append_operation
  append_operation-Rests op client w w' run =
      let (e, _, done) =
        bind_ok (entry_at w.node.log (sub32 (log_len w.node.log) (pos 1)))
          (λ _. ok (appended op client w)) run in
      rw (← ok_injective done) (Rests-of w (appended op client w) refl refl refl (λ s. s))

  apply_commits-Rests :
      (k : ℤ) (w : Replica) (s : S) (r : Replica × S)
      → apply_commits http k w s ≡ ok r
      → Rests w r.0
  unfolding apply_commits
  apply_commits-Rests k w s r run =
      let lo = add32 w.node.last_applied (pos 1) in
      let hi = add32 (add32 w.node.last_applied k) (pos 1) in
      let end : S × ℕ → Replica = λ done. persist (record w {
        node = record w.node { last_applied = add32 w.node.last_applied (pos done.1) };
      }) in
      let (es, _, next) =
        bind_ok (slice w.node.log lo hi)
          (λ es. do done ← apply_loop http es s; ok (end done, done.0)) run in
      let (applied, _, done) =
        bind_ok (apply_loop http es s) (λ done. ok (end done, done.0)) next in
      rw (← ok_first done) (
        Rests-of w (end applied) refl refl refl (λ _. persist-IsVoteSaved (record w {
          node = record w.node { last_applied = add32 w.node.last_applied (pos applied.1) };
        })))

  handle_success-Proceeds :
      (i id : ℕ) (upper : ℤ) (response : AppendEntriesResponse) (w : Replica) (next : Next)
      → handle_success id upper response w ≡ ok next
      → Proceeds i w (replica_after next)
  unfolding handle_success
  handle_success-Proceeds i id upper response w next run =
      elim (Bool-cases (ltb_ℤ w.node.current_term response.term)) [
        | inl newer ↦
            rw (← ok_injective (rw newer at run))
              (to_follower-Proceeds i response.term w (ground arith))
        | inr old ↦
            let with_both : List ℤ → List ℤ → Replica = λ nexts matches. record w {
              node = record w.node { next_index = nexts; match_index = matches };
            } in
            let (nexts, _, rest) =
              bind_ok (write_at w.node.next_index id (add32 upper (pos 1)))
                (λ nexts. do
                  matches ← write_at w.node.match_index id upper
                  ok (return true (with_both nexts matches)))
                (rw old at run) in
            let (matches, _, done) =
              bind_ok (write_at w.node.match_index id upper)
                (λ matches. ok (return true (with_both nexts matches))) rest in
            rw (← ok_injective done)
              (Rests-Proceeds i (Rests-of w (with_both nexts matches) refl refl refl (λ s. s)))
      ]

  handle_refusal-Proceeds :
      (i id : ℕ) (upper : ℤ) (msg : AppendEntriesMessage) (response : AppendEntriesResponse)
      (w : Replica) (next : Next)
      → handle_refusal id upper msg response w ≡ ok next
      → Proceeds i w (replica_after next)
  unfolding handle_refusal
  handle_refusal-Proceeds i id upper msg response w next run =
      let same : Proceeds i w w = Rests-Proceeds i (Rests-of w w refl refl refl (λ s. s)) in
      elim (Bool-cases (is_leader w.node.state)) [
        | inr not_leading ↦ rw (← ok_injective (rw not_leading at run)) same
        | inl leading ↦ elim (Bool-cases (ltb_ℤ w.node.current_term response.term)) [
          | inl newer ↦
              rw (← ok_injective (rw (leading, newer) at run))
                (to_follower-Proceeds i response.term w (ground arith))
          | inr old ↦ retried (rw (leading, old) at run)
        ]
      ]
    where
      prev : ℤ
      prev = sub32 msg.prev_log_index (pos 1)

      again : List ℤ → List LogEntry → ℤ → Next
      again nexts es term =
          retry
            (record (base_message w.node) {
              prev_log_index = prev;
              prev_log_term = term;
              entries = es;
            })
            (record w { node = record w.node { next_index = nexts } })

      retried :
          (do
            next ← read_at w.node.next_index id
            nexts ← write_at w.node.next_index id (sub32 next (pos 1))
            es ← copy_entries w.node.log msg.prev_log_index upper
            term ← term_before w.node.log prev
            ok (again nexts es term))
            ≡ ok next
          → Proceeds i w (replica_after next)
      retried run' =
          let (next, _, rest) =
            bind_ok (read_at w.node.next_index id)
              (λ next. do
                nexts ← write_at w.node.next_index id (sub32 next (pos 1))
                es ← copy_entries w.node.log msg.prev_log_index upper
                term ← term_before w.node.log prev
                ok (again nexts es term))
              run' in
          let (nexts, _, rest') =
            bind_ok (write_at w.node.next_index id (sub32 next (pos 1)))
              (λ nexts. do
                es ← copy_entries w.node.log msg.prev_log_index upper
                term ← term_before w.node.log prev
                ok (again nexts es term))
              rest in
          let (es, _, rest'') =
            bind_ok (copy_entries w.node.log msg.prev_log_index upper)
              (λ es. do term ← term_before w.node.log prev; ok (again nexts es term)) rest' in
          let (term, _, done) =
            bind_ok (term_before w.node.log prev) (λ term. ok (again nexts es term)) rest'' in
          rw (← ok_injective done) (
            Rests-Proceeds i (
              Rests-of w (record w { node = record w.node { next_index = nexts } }) refl refl refl
                (λ s. s)))

  handle_reply-Proceeds :
      (i id : ℕ) (upper : ℤ) (msg : AppendEntriesMessage) (response : AppendEntriesResponse)
      (w : Replica) (next : Next)
      → handle_reply id upper msg response w ≡ ok next
      → Proceeds i w (replica_after next)
  unfolding handle_reply handle_success handle_refusal
  handle_reply-Proceeds i id upper msg response w next run = elim (Bool-cases response.success) [
    | inl success ↦ handle_success-Proceeds i id upper response w next (rw success at run)
    | inr refused ↦ handle_refusal-Proceeds i id upper msg response w next (rw refused at run)
  ]

  commit_operation-Rests :
      (op : List GoString) (client : GoString) (w : Replica)
      → Rests w (commit_operation op client w)
  unfolding commit_operation
  commit_operation-Rests op client w =
      Rests-of w _ refl refl refl (λ _. inr (_, _, refl, store_node-Keeps _ _, refl, refl))

  commit_no_op-Rests : (w : Replica) → Rests w (commit_no_op w)
  unfolding commit_no_op
  commit_no_op-Rests w =
      Rests-of w _ refl refl refl (λ _. inr (_, _, refl, store_node-Keeps _ _, refl, refl))

  pub Local-Proceeds : (i : ℕ) {w w' : Replica} → Local w w' → Proceeds i w w'
  Local-Proceeds i {w} {w'} (write op client run) =
      Rests-Proceeds i (append_operation-Rests op client w w' run)
  Local-Proceeds i {w} (commit op client) = Rests-Proceeds i (commit_operation-Rests op client w)
  Local-Proceeds i {w} lead = Rests-Proceeds i (commit_no_op-Rests w)
  Local-Proceeds i {w} (send id upper msg response {next} run) =
      handle_reply-Proceeds i id upper msg response w next run
  Local-Proceeds i {w} (apply k s {r} run) = Rests-Proceeds i (apply_commits-Rests k w s r run)
  Local-Proceeds i {w} (connect stubs) = Rests-Proceeds i (Rests-of w _ refl refl refl (λ s. s))

-- ===== src/Raft/Server/Laws.antt =====
-- What the handlers add to the log.
use distributed_dns.Base.{
  ◌<◌, ◌≡◌, refl, Bool, Bool-cases, Option-cases, inl, inr, Option, none, some, List, [], ◌∷◌, ◌++◌,
  GoString, bytes, ok, Returns, length, str_eq, ◌||◌,
}
use distributed_dns.Raft.Protos.{LogEntry}
use distributed_dns.Raft.Node.{Replica, Fits}
use distributed_dns.Raft.States.{is_leader}
use distributed_dns.Raft.Client.{
  entry_of, appended, is_duplicate, needs_value, says_no_value, write_command, write_checked,
  write_replicated, commit_operation, post_op, put_op, delete_op, not_leader, duplicate, no_value,
  not_replicated, read_command,
}
use distributed_dns.Raft.Client.Writes.{append_operation_run}
use distributed_dns.Raft.Apply.{StoreRequest}
use distributed_dns.Raft.Apply.Laws.{IsOperation, is_post, is_put, is_delete, AllOperations}
use distributed_dns.Raft.Server.{
  ClientRequest, Around, write_handler, refusal, outcome_text, read_text, serve_client,
}
use distributed_dns.KvStore.Handlers.{form_error_line}
use distributed_dns.KvStore.Service.{Method, status_of}

-- Every entry is one that the applier understands.
abbrev pub IsApplicable : List LogEntry → Type 0
IsApplicable log = (rs : List (Option StoreRequest)) × AllOperations log rs

AllOperations-append :
    (log : List LogEntry) (rs : List (Option StoreRequest)) (e : LogEntry) {q : Option StoreRequest}
    → AllOperations log rs
    → IsOperation e.operation q
    → AllOperations (log ++ e ∷ []) (rs ++ q ∷ [])
AllOperations-append [] [] e h op = (op, tt)
AllOperations-append [] (r ∷ rs) e h op = absurd h
AllOperations-append (f ∷ log) [] e h op = absurd h
AllOperations-append (f ∷ log) (r ∷ rs) e h op = (h.0, AllOperations-append log rs e h.1 op)

-- A log to which an entry can be added.
pub record IsReady (log : List LogEntry) : Type 0 where
  pub fits : Fits log
  pub some_entry : 0 < length log
  pub applicable : IsApplicable log

-- Other goroutines keep the log so.
pub record IsTame (around : Around) : Type 0 where
  pub waits : (s : Replica) → IsReady s.node.log → IsReady (around.waiting s).node.log
  pub reads : (s : Replica) → IsReady s.node.log → IsReady (around.writing.while_reading s).node.log
  pub sends :
      (s : Replica)
      → IsApplicable s.node.log
      → IsApplicable (around.writing.while_sending s).node.log

module _ (op : GoString) (rest : List GoString) {q : Option StoreRequest}
    (shape : IsOperation (op ∷ rest) q) (client : GoString) (around : Around)
    (tame : IsTame around) where
  write_replicated-IsApplicable :
      (w : Replica)
      → IsReady w.node.log
      → Returns
          (write_replicated (op ∷ rest) client around.writing w)
          λ r. IsApplicable r.0.node.log
  unfolding write_replicated commit_operation
  write_replicated-IsApplicable w ready =
      let run = append_operation_run (op ∷ rest) client w ready.fits ready.some_entry in
      let (rs, all) = ready.applicable in
      let longer : IsApplicable (appended (op ∷ rest) client w).node.log = (
        rs ++ q ∷ [],
        AllOperations-append w.node.log rs (entry_of (op ∷ rest) client w.node) all shape,
      ) in
      let state = around.writing.while_sending (appended (op ∷ rest) client w) in
      let sent = tame.sends (appended (op ∷ rest) client w) longer in
      elim (Bool-cases around.writing.verdict) [
        | inl won ↦ ((commit_operation (op ∷ rest) client state, none), rw (run, won), sent)
        | inr lost ↦ ((state, some not_replicated), rw (run, lost), sent)
      ]

  write_checked-IsApplicable :
      (w : Replica)
      → IsReady w.node.log
      → Returns (write_checked (op ∷ rest) client around.writing w) λ r. IsApplicable r.0.node.log
  unfolding write_checked needs_value
  write_checked-IsApplicable w ready =
      let after_read = around.writing.while_reading w in
      let (r, run, fine) = write_replicated-IsApplicable w ready in
      let (r', run', fine') = write_replicated-IsApplicable after_read (tame.reads w ready) in
      elim (Bool-cases (str_eq op put_op || str_eq op delete_op)) [
        | inl needs ↦ elim (Bool-cases (says_no_value around.writing.read)) [
          | inl missing ↦
              ((after_read, some no_value), rw (needs, missing), (tame.reads w ready).applicable)
          | inr there ↦ (r', rw (needs, there) run', fine')
        ]
        | inr free ↦ (r, rw free run, fine)
      ]

  duplicate_run : (w : Replica) → (b : Bool) × (is_duplicate (op ∷ rest) client w.node ≡ ok b)
  unfolding is_duplicate
  duplicate_run w = (_, refl)

  write_command-IsApplicable :
      (w : Replica)
      → IsReady w.node.log
      → Returns (write_command (op ∷ rest) client around.writing w) λ r. IsApplicable r.0.node.log
  unfolding write_command
  write_command-IsApplicable w ready =
      let (b, test) = duplicate_run w in
      let (r, run, fine) = write_checked-IsApplicable w ready in
      elim (Bool-cases (is_leader w.node.state)) [
        | inl lead ↦ elim (Bool-cases b) [
          | inl equal ↦ ((w, some duplicate), rw (lead, test, equal), ready.applicable)
          | inr fresh ↦ (r, rw (lead, test, fresh) run, fine)
        ]
        | inr not_lead ↦ ((w, some not_leader), rw not_lead, ready.applicable)
      ]

module _ (fprintf : GoString → GoString) where
  write_handler-IsApplicable :
      (op : GoString) (rest : List GoString) {q : Option StoreRequest}
      → IsOperation (op ∷ rest) q
      → (name client done : GoString) (around : Around) (w : Replica) → IsTame around
      → IsReady w.node.log
      → Returns
          (write_handler fprintf (op ∷ rest) name client done around w)
          λ r. IsApplicable r.0.node.log
  unfolding write_handler
  write_handler-IsApplicable op rest shape name client done around w tame ready =
      let ((w', err), run, fine) =
        write_command-IsApplicable op rest shape client around tame (around.waiting w)
          (tame.waits w ready) in
      elim (Bool-cases (is_leader w.node.state)) [
        | inl lead ↦ ((w', outcome_text name done err), rw (lead, run), fine)
        | inr not_lead ↦ ((w, refusal fprintf w.node), rw not_lead, ready.applicable)
      ]

  -- A request of a client, at a replica with a log that is not empty, fits and has only entries
  -- that the applier understands, returns and leaves such entries only, if the other goroutines
  -- keep the log so.
  pub serve_client-IsApplicable :
      (m : Method) (r : ClientRequest) (around : Around) (w : Replica)
      → IsTame around
      → IsReady w.node.log
      → Returns (serve_client fprintf m r around w) λ res. IsApplicable res.0.node.log
  unfolding serve_client
  serve_client-IsApplicable Method.get r around w tame ready =
      elim (Bool-cases (is_leader w.node.state)) [
        | inl lead ↦ (
          (
            around.waiting w,
            record {
              status = status_of Method.get;
              body =
                  read_text fprintf
                    (read_command around.status around.answer (around.waiting w).node);
            },
          ),
          rw lead,
          (tame.waits w ready).applicable,
        )
        | inr not_lead ↦ (
          (w, record { status = status_of Method.get; body = refusal fprintf w.node }),
          rw not_lead,
          ready.applicable,
        )
      ]
  serve_client-IsApplicable Method.post r around w tame ready = elim (Option-cases r.form_error) [
    | inl parses ↦
        let ((w', text), run, fine) =
          write_handler-IsApplicable post_op (r.key ∷ r.value ∷ []) (is_post r.key r.value) post_op
            r.client (bytes " request completed successfully and committed.") around w tame ready in
        ((w', record { status = status_of Method.post; body = text }), rw (parses, run), fine)
    | inr (err, fails) ↦ (
      (w, record { status = status_of Method.post; body = form_error_line err }),
      rw fails,
      ready.applicable,
    )
  ]
  serve_client-IsApplicable Method.put r around w tame ready = elim (Option-cases r.form_error) [
    | inl parses ↦
        let ((w', text), run, fine) =
          write_handler-IsApplicable put_op (r.key ∷ r.value ∷ []) (is_put r.key r.value) put_op
            r.client (bytes " request completed successfully and committed.") around w tame ready in
        ((w', record { status = status_of Method.put; body = text }), rw (parses, run), fine)
    | inr (err, fails) ↦ (
      (w, record { status = status_of Method.put; body = form_error_line err }),
      rw fails,
      ready.applicable,
    )
  ]
  serve_client-IsApplicable Method.delete r around w tame ready = elim (Option-cases r.form_error) [
    | inl parses ↦
        let ((w', text), run, fine) =
          write_handler-IsApplicable delete_op (r.key ∷ []) (is_delete r.key) delete_op []
            (bytes " requested completed successfully and committed.") around w tame ready in
        ((w', record { status = status_of Method.delete; body = text }), rw (parses, run), fine)
    | inr (err, fails) ↦ (
      (w, record { status = status_of Method.delete; body = form_error_line err }),
      rw fails,
      ready.applicable,
    )
  ]

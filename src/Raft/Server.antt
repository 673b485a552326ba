-- ===== src/Raft/Server.antt =====
-- raft/raft_server.go: the HTTP handlers for clients. A request is given by what net/http and mux
-- report of it. What other goroutines do until `WriteCommand` has its first lock of its own, and in
-- it, is an argument; so is what `ReadCommand` makes of the local store's answer.
pub mod Laws
use distributed_dns.Base.{
  Option, none, some, List, [], ◌∷◌, ◌++◌, GoString, bytes, Bool, true, false, ◌&&◌, str_eq, Run,
  ok, ◌>>=◌, if◌then◌else◌,
}
use distributed_dns.Raft.Node.{RaftNode, Replica}
use distributed_dns.Raft.States.{is_leader}
use distributed_dns.Raft.Client.{
  ClientError, not_leader, duplicate, no_value, not_replicated, read_failed, body_error, post_op,
  put_op, delete_op, Surroundings, HttpResult, write_command, read_command,
}
use distributed_dns.KvStore.Handlers.{Response, form_error_line, status_ok}
use distributed_dns.KvStore.Service.{Method, status_of}

pub record ClientRequest : Type 0 where
  pub form_error : Option GoString
  pub value : GoString
  pub client : GoString
  pub key : GoString

-- What happens around a handler: until the write lock is taken, in `WriteCommand`, and in
-- `ReadCommand`: the verdict of `StaleReadCheck` and the local store's answer.
pub record Around : Type 0 where
  pub waiting : Replica → Replica
  pub writing : Surroundings
  pub status : Bool
  pub answer : HttpResult

abbrev pub is_get : Method → Bool
is_get Method.get = true
is_get _ = false

abbrev pub test_key : GoString
test_key = bytes "test"

abbrev pub line_end : GoString
line_end = 10 ∷ []

abbrev pub not_leader_line : GoString
not_leader_line = line_end ++ bytes "Error: Not a leader." ++ line_end

abbrev pub address_line : GoString → GoString
address_line address = line_end ++ bytes "Last known leader's address: " ++ address ++ line_end

abbrev pub no_value_text : GoString → GoString
no_value_text op =
    line_end
    ++ bytes "Unable to perform "
    ++ op
    ++ bytes " request, no value exists for given key in the store."
    ++ line_end

-- `TestHandler`
abbrev pub test_text : GoString
test_text = line_end ++ bytes "Server is up" ++ line_end ++ line_end

-- `err.Error()`, for a command with this operation.
abbrev pub error_text : GoString → ClientError → GoString
error_text op not_leader = line_end ++ bytes "Not a leader." ++ line_end
error_text op duplicate =
    bytes
      "Write operation failed. Already received identical write request from identical clientid."
error_text op no_value = no_value_text op
error_text op not_replicated =
    bytes "Write operation failed. Write could not be replicated on majority of nodes."
error_text op read_failed = bytes "read_failed"
error_text op (body_error err) = err

abbrev pub outcome_text : GoString → GoString → Option ClientError → GoString
outcome_text op done none = line_end ++ op ++ done ++ line_end
outcome_text op done (some err) =
    line_end
    ++ bytes "Error occured in "
    ++ op
    ++ bytes " request: "
    ++ error_text op err
    ++ line_end

-- `fprintf` is what `fmt.Fprintf` writes for a format without arguments.
module _ (fprintf : GoString → GoString) where
  abbrev pub refusal : RaftNode → GoString
  refusal n = not_leader_line ++ fprintf (address_line n.meta.leader_address)

  -- A handler of a write from the read lock on.
  unfoldable pub write_handler :
      List GoString → GoString → GoString → GoString → Around → Replica → Run (Replica × GoString)
  write_handler operation op client done around w =
      if is_leader w.node.state
      then (do
        (w', err) ← write_command operation client around.writing (around.waiting w)
        ok (w', outcome_text op done err))
      else ok (w, refusal w.node)

  -- The text of `ReadCommand`'s result is written as a format.
  abbrev pub read_text : GoString × Option ClientError → GoString
  read_text (response, none) =
      fprintf (line_end ++ bytes "Read operation completed. Result: " ++ response ++ line_end)
  read_text (response, some err) =
      line_end ++ bytes "Read failed with error: " ++ error_text [] err ++ line_end

  -- `GetHandler` from the read lock on; `ReadCommand` changes nothing itself.
  unfoldable pub read_handler : Around → Replica → Replica × GoString
  read_handler around w =
      if is_leader w.node.state
      then (
        around.waiting w,
        read_text (read_command around.status around.answer (around.waiting w).node),
      )
      else (w, refusal w.node)

  abbrev pub with_form :
      ClientRequest → Replica → Run (Replica × GoString) → Run (Replica × GoString)
  with_form r w handled = elim r.form_error [
    | none ↦ handled
    | some err ↦ ok (w, form_error_line err)
  ]

  -- The text that each handler writes.
  unfoldable pub handle : Method → ClientRequest → Around → Replica → Run (Replica × GoString)
  unfolding write_handler read_handler
  handle Method.post r around w = with_form r w (
      write_handler (post_op ∷ r.key ∷ r.value ∷ []) post_op r.client
        (bytes " request completed successfully and committed.") around w)
  handle Method.get r around w = ok (read_handler around w)
  handle Method.put r around w = with_form r w (
      write_handler (put_op ∷ r.key ∷ r.value ∷ []) put_op r.client
        (bytes " request completed successfully and committed.") around w)
  handle Method.delete r around w = with_form r w (
      write_handler (delete_op ∷ r.key ∷ []) delete_op []
        (bytes " requested completed successfully and committed.") around w)

  -- A handler, with the status that it sends first; that of a DELETE whose form does not parse is the
  -- default one, which is the same.
  unfoldable pub serve_client : Method → ClientRequest → Around → Replica → Run (Replica × Response)
  unfolding handle
  serve_client m r around w = do
    (w', text) ← handle m r around w
    ok (w', record { status = status_of m; body = text })

  -- The routes of `StartRaftServer`: a GET of "test" is not a read.
  unfoldable pub respond : Method → ClientRequest → Around → Replica → Run (Replica × Response)
  unfolding serve_client
  respond m r around w =
      if is_get m && str_eq r.key test_key
      then ok (w, record { status = status_ok; body = test_text })
      else serve_client m r around w

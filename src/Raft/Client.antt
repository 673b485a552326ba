-- ===== src/Raft/Client.antt =====
-- raft/client.go: `WriteCommand` and `ReadCommand`. The lock is released while other goroutines run;
-- what they do to the replica in between is an argument of the command.
pub mod Writes
pub mod Reads
pub mod Submit
pub mod Peers
use distributed_dns.Base.{
  ℕ, Bool, true, false, ◌&&◌, ◌||◌, not, Option, none, some, List, [], ◌∷◌, ◌++◌, GoString, bytes,
  str_eq, deep_equal, lookup, insert, Run, ok, ◌>>=◌, length, if◌then◌else◌,
}
use distributed_dns.Base.Int.{ℤ, pos, add32, sub32}
use distributed_dns.Raft.Protos.{LogEntry, AppendEntriesMessage}
use distributed_dns.Raft.Node.{RaftNode, Replica, commits_ready, persist, emit, entry_at, log_len}
use distributed_dns.Raft.States.{is_leader}
use distributed_dns.Raft.Replicate.{read_at}

-- The errors of the two commands.
pub data ClientError : Type 0 where
  not_leader duplicate no_value not_replicated read_failed : ClientError
  -- the error of the HTTP client while it reads the body
  body_error : GoString → ClientError

abbrev pub post_op : GoString
post_op = bytes "POST"

abbrev pub put_op : GoString
put_op = bytes "PUT"

abbrev pub delete_op : GoString
delete_op = bytes "DELETE"

abbrev pub no_op_op : GoString
no_op_op = bytes "NO-OP"

-- The body with which the store answers for a missing key.
abbrev pub no_value_line : GoString
no_value_line = bytes "Invalid key value pair" ++ 10 ∷ []

-- `val && …`: the last operation of this client is the same, and no other client wrote since.
unfoldable pub is_duplicate : List GoString → GoString → RaftNode → Run Bool
is_duplicate operation client n = do
  op ← read_at operation 0
  ok (elim (lookup client n.track_message) [
    | none ↦ false
    | some last ↦
        not (str_eq op delete_op)
        && not (str_eq op no_op_op)
        && (deep_equal last operation && str_eq client n.meta.latest_client)
  ])

-- A PUT or DELETE needs the value to be there.
unfoldable pub needs_value : List GoString → Run Bool
needs_value operation = do op ← read_at operation 0; ok (str_eq op put_op || str_eq op delete_op)

-- The result of `ReadCommand`: the body of the store's answer, or an error.
abbrev pub says_no_value : Option GoString → Bool
says_no_value none = false
says_no_value (some body) = str_eq body no_value_line

-- The entry of an operation, in the node's term.
abbrev pub entry_of : List GoString → GoString → RaftNode → LogEntry
entry_of operation client n = record {
  term = n.current_term;
  operation = operation;
  clientid = client;
}

abbrev pub appended : List GoString → GoString → Replica → Replica
appended operation client w =
    let n = w.node in
    record w {
      node = record n {
        meta = record n.meta { latest_client = client };
        log = n.log ++ entry_of operation client n ∷ [];
      };
    }

-- From the second lock on to the call of `LeaderSendAEs`. The last entry is read for a variable that
-- is not used, which panics on an empty log.
unfoldable pub append_operation : List GoString → GoString → Replica → Run Replica
append_operation operation client w = do
  unused ← entry_at w.node.log (sub32 (log_len w.node.log) (pos 1))
  ok (appended operation client w)

-- After the verdict of a majority.
unfoldable pub commit_operation : List GoString → GoString → Replica → Replica
commit_operation operation client w = emit (commits_ready (pos 1)) (
    persist (record w {
      node = record w.node {
        commit_index = add32 w.node.commit_index (pos 1);
        track_message = insert client operation w.node.track_message;
      };
    }))

-- What other goroutines do, what `ReadCommand` returns and what `LeaderSendAEs` decides.
pub record Surroundings : Type 0 where
  pub while_reading : Replica → Replica
  pub read : Option GoString
  pub while_sending : Replica → Replica
  pub verdict : Bool

abbrev pub Outcome : Type 0
Outcome = Replica × Option ClientError

unfoldable pub write_replicated : List GoString → GoString → Surroundings → Replica → Run Outcome
write_replicated operation client around w = do
  appended ← append_operation operation client w
  let sent = around.while_sending appended
  ok (
      if around.verdict
      then (commit_operation operation client sent, none)
      else (sent, some not_replicated))

unfoldable pub write_checked : List GoString → GoString → Surroundings → Replica → Run Outcome
write_checked operation client around w = do
  needs ← needs_value operation
  if needs
      then (if says_no_value around.read
          then ok (around.while_reading w, some no_value)
          else write_replicated operation client around (around.while_reading w))
      else write_replicated operation client around w

-- `WriteCommand`, from the first lock that it takes itself. An error is the second result; the first
-- result of the Go function is true where there is none.
unfoldable pub write_command : List GoString → GoString → Surroundings → Replica → Run Outcome
write_command operation client around w =
    if is_leader w.node.state
    then (do
      equal ← is_duplicate operation client w.node
      if equal then ok (w, some duplicate) else write_checked operation client around w)
    else ok (w, some not_leader)

-- The body of an HTTP answer, or the errors of the request and of reading the body.
pub data HttpResult : Type 0 where
  body : GoString → HttpResult
  no_answer : GoString → HttpResult
  broken_body : GoString → HttpResult

-- `ReadCommand` from the verdict of `StaleReadCheck` on: the answer of the local store, or an error.
unfoldable pub read_command : Bool → HttpResult → RaftNode → GoString × Option ClientError
read_command status answer n =
    if status && is_leader n.state
    then (elim answer [
      | body contents ↦ (contents, none)
      | no_answer err ↦ (bytes "unable to perform read", some read_failed)
      | broken_body err ↦ (bytes "unable to perform read", some (body_error err))
    ])
    else (bytes "unable to perform read", some read_failed)

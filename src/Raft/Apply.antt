-- ===== src/Raft/Apply.antt =====
-- raft/raft_node.go: `ApplyToStateMachine`, which sends committed entries to the local key-value store.
pub mod Laws
pub mod Round
use distributed_dns.Base.{
  ℕ, zero, suc, ◌+◌, ◌-◌, Bool, true, false, ◌&&◌, Option, none, some, List, [], ◌∷◌, GoString,
  bytes, str_eq, Run, ok, fault, panic, ◌>>=◌, length, leb, take, drop, if◌then◌else◌,
}
use distributed_dns.Base.Int.{ℤ, pos, negsuc, add32, ltb_ℤ}
use distributed_dns.Raft.Protos.{LogEntry}
use distributed_dns.Raft.Node.{RaftNode, Replica, persist}
use distributed_dns.Raft.Replicate.{read_at}
use distributed_dns.Raft.Client.{post_op, put_op, delete_op, no_op_op}

-- A request to the store, with the key and the value.
pub data StoreRequest : Type 0 where
  post_request put_request : GoString → GoString → StoreRequest
  delete_request : GoString → StoreRequest

-- What the `switch` on `entry.Operation[0]` sends, if anything: a NO-OP and an invalid operation send
-- nothing, and count as applied.
unfoldable pub request_of : LogEntry → Run (Option StoreRequest)
request_of e = do
  op ← read_at e.operation 0
  if str_eq op post_op
      then (do
        value ← read_at e.operation 2
        key ← read_at e.operation 1
        ok (some (post_request key value)))
      else if str_eq op put_op
      then (do
        value ← read_at e.operation 2
        key ← read_at e.operation 1
        ok (some (put_request key value)))
      else if str_eq op delete_op
      then (do key ← read_at e.operation 1; ok (some (delete_request key)))
      else ok none

-- `log[lo:hi]`. (Up to the capacity Go would not panic; no caller asks for more than the length.)
unfoldable pub slice : List LogEntry → ℤ → ℤ → Run (List LogEntry)
slice log (pos lo) (pos hi) =
    if leb lo hi && leb hi (length log) then ok (take (hi - lo) (drop lo log)) else fault panic
slice log (pos lo) (negsuc hi) = fault panic
slice log (negsuc lo) hi = fault panic

-- The store is reached over HTTP: `http` is its state after a request, and whether there was no error.
module _ {S : Type 0} (http : StoreRequest → S → S × Bool) where
  abbrev pub perform : Option StoreRequest → S → S × Bool
  perform none s = (s, true)
  perform (some r) s = http r s

  -- The loop over the entries, to the state of the store and the number applied: an error halts it.
  unfoldable pub apply_loop : List LogEntry → S → Run (S × ℕ)
  apply_loop [] s = ok (s, 0)
  apply_loop (e ∷ es) s = do
    r ← request_of e
    let next = perform r s
    let rest = apply_loop es next.0
    if next.1 then (do done ← rest; ok (done.0, suc done.1)) else ok (next.0, 0)

  -- One round of the outer loop, after `to_commit` was received.
  unfoldable pub apply_commits : ℤ → Replica → S → Run (Replica × S)
  apply_commits to_commit w s = do
    let n = w.node
    es ← slice n.log (add32 n.last_applied (pos 1)) (add32 (add32 n.last_applied to_commit) (pos 1))
    done ← apply_loop es s
    ok (
      persist (record w { node = record n { last_applied = add32 n.last_applied (pos done.1) } }),
      done.0,
    )

-- ===== src/Raft/Storage.antt =====
-- raft/storage.go and `InitializeNode` of raft/raft_node.go: a node is restored from the file that
-- `PersistToStorage` wrote.
use distributed_dns.Base.{
  ℕ, zero, suc, ◌≡◌, refl, ap, ◌∙◌, Bool, false, Option, none, some, List, [], GoString, StringMap,
  Gob, or_else, lookup, Run, ok, fault, panic, exit, ◌>>=◌, Returns, ltb, lt→ltb, if◌then◌else◌,
  replicate,
}
use distributed_dns.Base.Int.{ℤ, minus_one, pos}
use distributed_dns.Raft.Protos.{LogEntry}
use distributed_dns.Raft.Node.{
  follower, RaftNode, Value, int32_value, log_value, key_term, key_voted, key_log, key_commit,
  key_applied,
}
use distributed_dns.Raft.Invariant.{Keeps}

-- The type assertion `t.(int32)` after a `Get` whose check failed is fatal.
abbrev pub as_int32 : Option Value → Run ℤ
as_int32 none = fault exit
as_int32 (some (int32_value v)) = ok v
as_int32 (some (log_value l)) = fault panic

abbrev pub as_log : Option Value → Run (List LogEntry)
as_log none = fault exit
as_log (some (int32_value v)) = fault panic
as_log (some (log_value l)) = ok l

abbrev pub or_exit {ℓ} : {A : Type ℓ} → Option A → Run A
or_exit none = fault exit
or_exit (some a) = ok a

-- The node before anything is restored.
abbrev pub new_node : ℕ → ℕ → RaftNode
new_node n_replica rid = record {
  meta = record {
    n_replicas = n_replica;
    replica_id = rid;
    peer_replica_clients = replicate n_replica false;
    leader_address = [];
    node_address = [];
    latest_client = [];
  };
  track_message = [];
  current_term = pos 0;
  voted_for = minus_one;
  log = [];
  commit_index = minus_one;
  last_applied = minus_one;
  state = follower;
  next_index = [];
  match_index = [];
}

module _ (gob : Gob Value) where
  open gob use {Image, encode, decode, size, decode-encode, size-encode}

  -- `HasData`; `none` is a file that does not exist.
  unfoldable pub has_data : Option Image → Bool
  has_data none = false
  has_data (some image) = ltb 0 (size image)

  -- `ReadFile`, into the map of the storage.
  unfoldable pub read_file : Option Image → StringMap Value → Run (StringMap Value)
  read_file file m = do image ← or_exit file; or_exit (decode image m)

  -- `Get` reads the file anew.
  unfoldable pub get :
      GoString → Option Image → StringMap Value → Run (Option Value × StringMap Value)
  get key file m = do m' ← read_file file m; ok (lookup key m', m')

  unfoldable pub restore :
      Option Image → RaftNode → StringMap Value → Run (RaftNode × StringMap Value)
  restore file n m = do
    (t1, m1) ← get key_term file m
    term ← as_int32 t1
    (t2, m2) ← get key_voted file m1
    voted ← as_int32 t2
    (t3, m3) ← get key_log file m2
    log ← as_log t3
    (t4, m4) ← get key_commit file m3
    commit ← as_int32 t4
    (t5, m5) ← get key_applied file m4
    applied ← as_int32 t5
    ok (
      record n {
        current_term = term;
        voted_for = voted;
        log = log;
        commit_index = commit;
        last_applied = applied;
      },
      m5,
    )

  unfoldable pub initialize_node : ℕ → ℕ → Option Image → Run (RaftNode × StringMap Value)
  initialize_node n_replica rid file =
      if has_data file
      then restore file (new_node n_replica rid) []
      else ok (new_node n_replica rid, [])

  -- A key of the encoded map reads its value, whatever the map of the storage holds.
  get-encode :
      (key : GoString) (saved m : StringMap Value) (v : Value)
      → lookup key saved ≡ some v
      → Returns (get key (some (encode saved)) m) λ r. r.0 ≡ some v
  unfolding get read_file
  get-encode key saved m v h =
      let (m', decoded, same) = decode-encode saved m in
      ((lookup key m', m'), rw decoded, same key ∙ ap (λ o. or_else o (lookup key m)) h)

  -- A node is restored from a file that encodes a map with the five persisted fields of a node: it
  -- starts as a follower with those fields, and is otherwise new.
  pub initialize_node-Keeps :
      (n_replica rid : ℕ) (saved : StringMap Value) (n : RaftNode)
      → Keeps saved n
      → Returns (initialize_node n_replica rid (some (encode saved))) λ r.
        r.0 ≡ record (new_node n_replica rid) {
          current_term = n.current_term;
          voted_for = n.voted_for;
          log = n.log;
          commit_index = n.commit_index;
          last_applied = n.last_applied;
        }
  unfolding initialize_node has_data restore
  initialize_node-Keeps n_replica rid saved n k =
      let ((t1, m1), run1, e1) = get-encode key_term saved [] _ k.term in
      let ((t2, m2), run2, e2) = get-encode key_voted saved m1 _ k.voted in
      let ((t3, m3), run3, e3) = get-encode key_log saved m2 _ k.log in
      let ((t4, m4), run4, e4) = get-encode key_commit saved m3 _ k.commit in
      let ((t5, m5), run5, e5) = get-encode key_applied saved m4 _ k.applied in
      (
        (
          record (new_node n_replica rid) {
            current_term = n.current_term;
            voted_for = n.voted_for;
            log = n.log;
            commit_index = n.commit_index;
            last_applied = n.last_applied;
          },
          m5,
        ),
        rw (
          lt→ltb 0 (size (encode saved)) (size-encode saved),
          run1,
          e1,
          run2,
          e2,
          run3,
          e3,
          run4,
          e4,
          run5,
          e5,
        ),
        refl,
      )

  -- The file after as many calls of the system by `WriteFile`: it is created empty, which `HasData`
  -- takes for no file, and the map is encoded to it.
  unfoldable pub file_after : ℕ → StringMap Value → Option Image → Option Image
  file_after zero m old = old
  file_after (suc zero) m old = none
  file_after (suc (suc calls)) m old = some (encode m)

  -- `WriteFile`, with whether the file is created, and the map encoded, without an error.
  unfoldable pub write_file : Bool → Bool → StringMap Value → Option Image → Run (Option Image)
  unfolding file_after
  write_file creates encodes m old =
      if creates then ok (file_after (if encodes then 2 else 1) m old) else fault exit

  -- A replica that ends between the two calls starts as one that never ran, in term 0 and without a
  -- vote, whatever was in the file before.
  pub initialize_node-file_after :
      (n_replica rid : ℕ) (m : StringMap Value) (old : Option Image)
      → initialize_node n_replica rid (file_after 1 m old) ≡ ok (new_node n_replica rid, [])
  unfolding initialize_node has_data file_after
  initialize_node-file_after n_replica rid m old = refl

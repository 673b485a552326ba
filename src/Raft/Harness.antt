-- ===== src/Raft/Harness.antt =====
-- raft/testing_utils.go: what a test of a whole system counts and compares. The slices of a
-- `testing_st`, one place for each replica from the start of a test on, are one list here.
use distributed_dns.Base.{
  ℕ, zero, suc, ◌≡◌, Bool, true, false, not, ◌&&◌, Option, none, some, List, [], ◌∷◌, ◌++◌, length,
  get_elem?, ◌==◌, ltb, if◌then◌else◌, GoString, str_eq, Run, ok, fault, panic, ◌>>=◌,
}
use distributed_dns.Base.Int.{ℤ, pos, minus_one, eqb_ℤ}
use distributed_dns.Raft.Protos.{LogEntry}
use distributed_dns.Raft.Node.{Replica, entry_at}
use distributed_dns.Raft.States.{is_leader}
pub mod Begin
pub mod Entries
pub mod Leaders
pub mod Consensus
pub mod Inactive
pub mod Links
pub mod Restart
pub mod System

-- The replica of a number, and whether it is active.
pub record Slot : Type 0 where
  pub replica : Replica
  pub active : Bool

abbrev pub leads : Slot → Bool
leads s = s.active && is_leader s.replica.node.state

-- The loop of `count_leader`, with `n_leaders` so far.
unfoldable pub count_loop : List Slot → ℕ → ℕ
count_loop [] n = n
count_loop (s ∷ ss) n = count_loop ss (if leads s then suc n else n)

unfoldable pub count_leader : List Slot → ℕ
unfolding count_loop
count_leader ss = count_loop ss 0

-- The loop of `find_leader` from replica `i` on, with `leader_id` so far.
unfoldable pub find_loop : ℕ → List Slot → ℤ → ℤ
find_loop i [] id = id
find_loop i (s ∷ ss) id = find_loop (suc i) ss (if leads s then pos i else id)

unfoldable pub find_leader : List Slot → ℤ
unfolding find_loop
find_leader ss = find_loop 0 ss minus_one

-- The loop of `check_terms`, with `sys_term` so far.
unfoldable pub terms_loop : List Slot → ℤ → Bool
terms_loop [] sys = true
terms_loop (s ∷ ss) sys =
    let unset = eqb_ℤ sys minus_one in
    let rest = terms_loop ss (if s.active && unset then s.replica.node.current_term else sys) in
    if s.active && (not unset && not (eqb_ℤ sys s.replica.node.current_term)) then false else rest

unfoldable pub check_terms : List Slot → Bool
unfolding terms_loop
check_terms ss = terms_loop ss minus_one

-- The entries of the active replicas at an index of the log.
unfoldable pub collect : ℤ → List Slot → Run (List LogEntry)
collect index [] = ok []
collect index (s ∷ ss) = do
  entries ← if s.active then (do e ← entry_at s.replica.node.log index; ok (e ∷ [])) else ok []
  rest ← collect index ss
  ok (entries ++ rest)

-- The loop over `k`, for operations of one length.
unfoldable pub same_operation : List GoString → List GoString → Bool
same_operation (s ∷ ss) (t ∷ ts) = str_eq s t && same_operation ss ts
same_operation _ _ = true

unfoldable pub same_entry : LogEntry → LogEntry → Bool
unfolding same_operation
same_entry a b =
    eqb_ℤ a.term b.term
    && (length a.operation == length b.operation
        && (str_eq a.clientid b.clientid && same_operation a.operation b.operation))

-- `logs[i]`
abbrev pub log_at : List LogEntry → ℕ → Run LogEntry
log_at logs i = elim (get_elem? logs i) [ none ↦ fault panic | some e ↦ ok e ]

-- The loop over `j` for replica `i`, with as many rounds left, and `curr_count` so far.
unfoldable pub count_same : List LogEntry → ℕ → ℕ → ℕ → ℕ → Run ℕ
count_same logs i zero j count = ok count
count_same logs i (suc rounds) j count = do
  next ←
      if i == j
      then ok count
      else do a ← log_at logs i; b ← log_at logs j; ok (if same_entry a b then suc count else count)
  count_same logs i rounds (suc j) next

-- The loop over `i`, with as many rounds left, and `count` so far.
unfoldable pub count_most : List LogEntry → ℕ → ℕ → ℕ → ℕ → Run ℕ
unfolding count_same
count_most logs n zero i count = ok count
count_most logs n (suc rounds) i count = do
  curr ← count_same logs i n 0 1
  count_most logs n rounds (suc i) (if ltb count curr then curr else count)

unfoldable pub check_consensus : ℤ → List Slot → Run ℕ
unfolding collect count_most
check_consensus index ss = do logs ← collect index ss; count_most logs (length ss) (length ss) 0 0

-- ===== src/Raft/Harness/Entries.antt =====
-- raft/testing_utils.go: `add_new_log_entries`. What the HTTP client does is a parameter; an error is
-- noted, and then closing the body of the answer that is not there panics.
use distributed_dns.Base.{
  ℕ, zero, suc, Bool, List, [], ◌∷◌, ◌++◌, GoString, bytes, itoa, Run, ok, fault, panic, ◌>>=◌,
  if◌then◌else◌,
}
use distributed_dns.Base.Int.{pos, negsuc}
use distributed_dns.Raft.Setup.{server_address}
use distributed_dns.Raft.Harness.{Slot, find_leader}

-- The URL and the form of a POST.
pub record Post : Type 0 where
  pub url : GoString
  pub form : GoString

abbrev pub post_of : ℕ → ℕ → Post
post_of leader_id i = record {
  url = bytes "http://localhost" ++ server_address leader_id ++ bytes "/key" ++ itoa i;
  form = bytes "value=value" ++ itoa i ++ bytes "&client=admin";
}

-- `answers` says whether a request is answered without an error.
module _ (answers : Post → Bool) where
  -- The posts from number `i` on, with as many left.
  unfoldable pub post_loop : ℕ → ℕ → ℕ → Run (List Post)
  post_loop leader_id zero i = ok []
  post_loop leader_id (suc left) i =
      let rest = post_loop leader_id left (suc i) in
      if answers (post_of leader_id i)
      then (do posts ← rest; ok (post_of leader_id i ∷ posts))
      else fault panic

  -- No post where there is no leader: -1 is then noted as an error.
  unfoldable pub add_new_log_entries : ℕ → ℕ → List Slot → Run (List Post)
  unfolding post_loop
  add_new_log_entries n start ss = elim (find_leader ss) [
    | negsuc none_found ↦ ok []
    | pos leader_id ↦ post_loop leader_id n start
  ]

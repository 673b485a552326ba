-- ===== src/Tests/Server.antt =====
-- Requests of clients at a leader.
use distributed_dns.Base.{none, some, [], ◌∷◌, bytes, Returns, arith, true}
use distributed_dns.Raft.Client.{body}
use distributed_dns.Raft.Client.Writes.{quiet}
use distributed_dns.Raft.Apply.{post_request}
use distributed_dns.Raft.Apply.Laws.{is_no_op, is_post}
use distributed_dns.Raft.Server.{ClientRequest, Around, serve_client}
use distributed_dns.Raft.Server.Laws.{IsReady, IsTame, IsApplicable, serve_client-IsApplicable}
use distributed_dns.KvStore.Service.{Method}
use distributed_dns.Tests.Replicas.{leader_0}

abbrev request : ClientRequest
request = record { form_error = none; value = bytes "w"; client = bytes "d"; key = bytes "k" }

-- Nothing else runs, the store has a value, and a majority takes the write.
abbrev calm : Around
calm = record {
  waiting = λ s. s;
  writing = quiet (some (bytes "Value = v")) true;
  status = true;
  answer = body (bytes "Value = v");
}

calm-IsTame : IsTame calm
calm-IsTame = record { waits = λ s h. h; reads = λ s h. h; sends = λ s h. h }

leader_0-IsReady : IsReady leader_0.node.log
leader_0-IsReady = record {
  fits = omega arith;
  some_entry = omega arith;
  applicable = (
    none ∷ none ∷ some (post_request (bytes "k") (bytes "v")) ∷ [],
    (is_no_op, (is_no_op, (is_post (bytes "k") (bytes "v"), tt))),
  );
}

serve_client-IsApplicable_example :
    Returns
      (serve_client (λ s. s) Method.put request calm leader_0)
      λ res. IsApplicable res.0.node.log
serve_client-IsApplicable_example =
    serve_client-IsApplicable (λ s. s) Method.put request calm leader_0 calm-IsTame leader_0-IsReady

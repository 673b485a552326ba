-- ===== src/Raft/Setup/Start.antt =====
-- A replica that starts from the file of an earlier run.
use distributed_dns.Base.{
  ℕ, ◌+◌, ◌≡◌, refl, arith, Bool, true, Option, some, List, [], ◌∷◌, GoString, StringMap, Gob, ok,
  Returns,
}
use distributed_dns.Base.Int.{pos}
use distributed_dns.Raft.Node.{RaftNode, Replica, Value}
use distributed_dns.Raft.Invariant.{IsWellFormed, start_of, Keeps, IsDurable}
use distributed_dns.Raft.Storage.{new_node, initialize_node-Keeps}
use distributed_dns.Raft.Apply.{StoreRequest, apply_commits}
use distributed_dns.Raft.Apply.Laws.{AllOperations}
use distributed_dns.Raft.Apply.Round.{Round}
use distributed_dns.Raft.Cluster.Elections.{reboot}
use distributed_dns.Raft.Connect.Resume.{behind, Resumed, connect-Resumed, Resumed-applies}
use distributed_dns.Raft.Setup.{
  kv_address, grpc_address, server_address, store_file, rep_addrs, applier, kv_store, grpc_server,
  raft_server, Site, Network, Rounds, gets, with_address, start_servers, connect_raft_node,
  setup_raft_node, start_node, raft_persistence_file,
}
use distributed_dns.Raft.Setup.Addresses.{addresses-length}

-- No call of the network fails, and every loop that waits ends.
pub record IsUp (net : Network) (rounds : Rounds) : Type 0 where
  pub dials : (addr : GoString) → net.dials addr ≡ true
  pub resolves : (addr : GoString) → net.resolves addr ≡ true
  pub listens : (addr : GoString) → net.listens addr ≡ true
  pub store : gets rounds.store ≡ true
  pub own : gets rounds.own ≡ true
  pub ready : gets rounds.ready ≡ true
  pub server : gets rounds.server ≡ true

-- A new node with the fields that the file of `m` keeps.
abbrev pub restored : ℕ → ℕ → RaftNode → RaftNode
restored n rid m = record (new_node n rid) {
  current_term = m.current_term;
  voted_for = m.voted_for;
  log = m.log;
  commit_index = m.commit_index;
  last_applied = m.last_applied;
}

with_address-Resumed :
    (addr : GoString) (w w' : Replica) → Resumed w w' → Resumed w (with_address addr w')
with_address-Resumed addr w w' r = record {
  stubs = r.stubs;
  told = r.told;
  valid = record {
    fits = r.valid.fits;
    applied = r.valid.applied;
    ordered = r.valid.ordered;
    within = r.valid.within;
  };
  kept = r.kept;
  same = r.same;
}

-- The servers start once the replica is connected.
start_servers-run :
    (net : Network) (rounds : Rounds) (id : ℕ) (site : Site) (w : Replica)
    → IsUp net rounds
    → start_servers net rounds id site w
      ≡ ok (
          some (record site {
            replica = with_address (server_address id) w;
            running =
                raft_server (server_address id) ∷ grpc_server (grpc_address id) ∷ site.running;
          }))
unfolding start_servers
start_servers-run net rounds id site w up =
    simp (up.resolves (grpc_address id), up.listens (grpc_address id), up.own, up.ready, up.server)

-- What `main` leaves before it waits for a signal.
pub record Started {S : Type 0} (http : StoreRequest → S → S × Bool)
    (rs : List (Option StoreRequest)) (s : S) (n rid : ℕ) (m : RaftNode) (r : Option Site)
    : Type 0 where
  pub site : Site
  pub result : r ≡ some site
  pub fresh : Replica
  pub reads : fresh.node ≡ restored n rid m
  pub quiet : fresh.effects ≡ []
  pub durable : IsDurable fresh
  pub resumed : Resumed fresh site.replica
  pub applies :
      Returns
        (apply_commits http (pos (behind fresh)) site.replica s)
        (Round http (behind fresh) rs site.replica s)
  pub reaches :
      start_of site.replica.node.last_applied + behind fresh
      ≡ start_of site.replica.node.commit_index
  pub address : site.replica.node.meta.node_address ≡ server_address rid
  pub services :
      site.running
      ≡ raft_server (server_address rid)
        ∷ grpc_server (grpc_address rid)
        ∷ kv_store (kv_address rid) (store_file rid)
        ∷ applier
        ∷ []

module _ (gob : Gob Value) {S : Type 0} (http : StoreRequest → S → S × Bool) where
  open gob use {encode}

  -- A replica that `main` starts from the file of a well-formed node whose entries are all
  -- operations, where no call of the network fails and every loop that waits ends, is a follower
  -- with that node's term, vote, log and indices: it has stubs for the others and none for itself,
  -- its timer and its four services run at their addresses, the applier is told the number of
  -- entries that are committed and not applied, if there are any, and a round for that number
  -- returns, and reaches the commit index if the store takes every request.
  pub start_node-Started :
      (net : Network) (rounds : Rounds) (rid n : ℕ) (saved : StringMap Value) (m : RaftNode)
      (rs : List (Option StoreRequest)) (s : S)
      → IsUp net rounds
      → Keeps saved m
      → IsWellFormed m
      → AllOperations m.log rs
      → Returns (start_node gob net rounds rid n (some saved)) (Started http rs s n rid m)
  unfolding start_node setup_raft_node connect_raft_node reboot
  start_node-Started net rounds rid n saved m rs s up keeps wf operations =
      let ((node, storage), run, e) = initialize_node-Keeps gob n rid saved m keeps in
      let fresh : Replica = record {
        node = restored n rid m;
        storage = storage;
        saved = some saved;
        effects = [];
      } in
      let good : IsWellFormed fresh.node = record {
        fits = wf.fits;
        applied = wf.applied;
        ordered = wf.ordered;
        within = wf.within;
      } in
      let (w', connected, resumed) =
        connect-Resumed net.dials (rep_addrs n rid) (λ i addr at. up.dials addr) fresh good refl
          (omega (arith, addresses-length rid n 0)) in
      let resumed' = with_address-Resumed (server_address rid) fresh w' resumed in
      let (applies, reaches) =
        Resumed-applies http fresh (with_address (server_address rid) w') rs s resumed' good
          operations in
      let site : Site = record {
        replica = fresh;
        kvstore_addr = kv_address rid;
        persistence_file = raft_persistence_file (kv_address rid);
        running = kv_store (kv_address rid) (store_file rid) ∷ applier ∷ [];
      } in
      (
        some (record site {
          replica = with_address (server_address rid) w';
          running =
              raft_server (server_address rid) ∷ grpc_server (grpc_address rid) ∷ site.running;
        }),
        simp (run, e, up.store, connected, start_servers-run net rounds rid site w' up),
        record {
          site = record site {
            replica = with_address (server_address rid) w';
            running =
                raft_server (server_address rid) ∷ grpc_server (grpc_address rid) ∷ site.running;
          };
          result = refl;
          fresh = fresh;
          reads = refl;
          quiet = refl;
          durable = (
            saved,
            refl,
            record {
              term = keeps.term;
              voted = keeps.voted;
              log = keeps.log;
              commit = keeps.commit;
              applied = keeps.applied;
            },
          );
          resumed = resumed';
          applies = applies;
          reaches = reaches;
          address = refl;
          services = refl;
        },
      )

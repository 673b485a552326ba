-- ===== src/Lib.antt =====
-- A model of distributed-dns, a replicated key-value store for DNS records on a Raft log, in Go.
--
-- A replica has three parts. The Raft node (raft/*.go) elects leaders and replicates a log of
-- operations through two RPCs; the Raft HTTP server hands a client's POST, PUT and DELETE to
-- `WriteCommand` and its GET to `ReadCommand`; a local key-value store (raft/kv_store), an HTTP
-- server of its own, gets the committed operations from `ApplyToStateMachine` and answers reads.
--
-- Base: integers of 32 bits with their wrap-around, byte strings, maps, files in the gob format,
-- and `Run`, a result that may be a panic or an exit of the process.
--
-- KvStore, from raft/kv_store:
--   Hash and Store (hashmap.go: hash, Push, Get, Put, Delete), LinkedList (linkedlist.go),
--   Handlers (restaccess_key_value.go: the four handlers), Saved (saved.go and InitializeStore),
--   Service (the routes of StartKVStore in raft/initial_setup.go). View and Operations give the
--   table as a map; Service/Refines compares the service with a specification on that map.
--
-- Raft, from raft:
--   Protos (protos/replica.proto), Node (raft_node.go: the structs; storage.go: PersistToStorage),
--   Vote (rpcs.go: RequestVote), Append (rpcs.go: AppendEntries), States (states.go: ToFollower
--   and ToCandidate; election.go: StartElection), Election (election.go: the goroutine for a vote;
--   states.go: ToLeader; its loop is Election/Lead), Replicate (send_AEs.go: the message of
--   LeaderSendAEs, and LeaderSendAE; Replicate/Broadcast: the whole of LeaderSendAEs, with the
--   replicas it sends to; Replicate/Shared: the message that its goroutines share, in any order of
--   their writes; Replicate/Heartbeats: HeartBeats), Quorum (send_AEs.go: the counters of
--   LeaderSendAEs), Client (client.go: WriteCommand and ReadCommand; Client/Submit: the end of
--   WriteCommand with the other replicas; Client/Peers: all of WriteCommand, ReadCommand and
--   StaleReadCheck with them; Client/Reads: a read by the outcomes of its heartbeats),
--   Apply (raft_node.go: ApplyToStateMachine), Storage (storage.go, and
--   InitializeNode of raft_node.go), Server (raft_server.go: the handlers).
--   Setup (main.go; initial_setup.go: Setup_raft_node, Connect_raft_node; utils.go:
--   ListenForShutdown; Setup/Addresses, Setup/Start, Setup/Stop the lemmas), Connect (raft_node.go:
--   ConnectToPeerReplicas; Connect/Resume applies what is left), Timer
--   (election.go: RunElectionTimer), Harness (testing_utils.go: what a test counts; Harness/Begin and
--   Harness/Entries its start and its requests, Harness/Links its
--   cut connections, Harness/Restart a crash and a new start, Harness/System a test of a cluster).
--   Blocking (rpcs.go, election.go, raft_node.go: who waits for the mutex of a follower and on its
--   channels).
--   Cluster has `n` replicas together: System the steps, Ballot and Calls the goroutines of an election
--   and the votes they count, Elections a restart, Local the other operations, and Invariant, Changes,
--   Effects, Handlers, Votes, Replies, Majority and Safety the lemmas.
--   Invariant has the well-formedness of a node and Log, Persist and the children the lemmas.
--   Tests has sample runs.
--
-- State and interleaving. A handler runs under the node's mutex and is a function on a `Replica`:
-- the node's fields, its storage map, the map last written to the file, and the effects (sends on
-- channels, goroutines started) in their order. Where the code releases the mutex, what other
-- goroutines do in between is an argument (`Surroundings` and `Read` of Client, `Around` of
-- Server) or the state is taken as unchanged, which the comment says (`send_loop` of Replicate).
-- Sends on channels are recorded, and not blocked on, but in
-- Blocking, where a send and its receipt are one step and a step of the mutex needs it free.
--
-- In Replicate/Connection, Replicate/Broadcast, Client/Submit and Client/Peers the other
-- side of a call is a replica that runs `AppendEntries`, over a connection with a list of fates: a
-- call arrives, its request is lost, or its reply. Calls that the code makes in goroutines follow one after the other there, each
-- with a message of its own, where the code has one message for all, which is in Replicate/Shared.
--
-- In Cluster a step is one critical section of one replica, in any order. A goroutine of an
-- election is `spawned`, `asking` after it read its request, `replied` after the other replica
-- answered, and `ended` when it handled the reply; a call that is lost never goes on. It reads the
-- term when it runs, which the code does not bind to the election: `prompt` goroutines read while
-- the election lasts, `late` ones at any time. More is allowed than the code does: any message
-- comes to `AppendEntries`, any reply to `LeaderSendAE`, and calls go on after a restart. A
-- time-out is taken only below the largest `int32`.
--
-- Bounds. `int32` is the integers with their wrap-around at 2^31; theorems ask that a log is
-- shorter than 2^31 - 1 entries. Go's `int` and the counters of replicas and votes are natural
-- numbers without an overflow. `send_loop` takes fuel, one for each round: a refusal lowers the
-- previous index by one and one at -1 ends in a panic, so one more round than the index that the
-- message starts at is enough, whatever the peer does. The other loops are structural recursions.
--
-- Parameters. What is not in the repository is an argument: the gob format (an encoding that
-- decodes to the same map, on top of what the receiving map held, and an order in which Go visits
-- the map), the HTTP client that reaches the local store, whether a dial or a listener fails, the
-- RPC of a peer, and what fmt.Fprintf makes of a text that is used as a format.
-- Tests/Images gives a format that meets the assumptions.
--
-- Not modelled: the HTTP and gRPC servers themselves and their graceful shutdown, the mutex and
-- channels of a leader, logging, the command line, and the sleeps of the tests: they are wiring and
-- timing around the handlers above. Which case of a `select` is taken is an argument of
-- `RunElectionTimer` and of `ListenForShutdown`. Write errors of a file are
-- left out of the handlers; Storage has them for WriteFile alone.
pub mod Base
pub mod KvStore
pub mod Raft
mod Tests

-- ===== src/Lib.antt =====
-- EnsembleChat: a chat service with an ensemble of coordinator nodes.
--
-- The program has two halves. A coordinator node runs three algorithms side by side: a Raft leader
-- election (internal/election/election.go), a token ring for mutual exclusion
-- (internal/lock/lock.go) and a Raft log (internal/consensus/consensus.go).
-- internal/coordinator/coordinator.go builds a node of the three, connects the nodes by callbacks,
-- and lets the election tell the log who leads; internal/transport/transport.go carries the messages
-- between processes. Chat servers (internal/chatserver/chatserver.go) keep rooms and messages, and
-- chat clients (internal/client/client.go) join, send and poll by RPC.
--
-- Files:
--   Common        names of the libraries passed on; Boolean tests, lists on native numbers, signed
--                 integers, maps keyed by text, totals over families of nodes
--   Types         internal/types/types.go
--   Election      internal/election/election.go, one function per handler (start_election for
--                 startElection, and so on); Election.Cluster is the system of n nodes
--   TokenRing     internal/lock/lock.go (request_access for RequestAccess, and so on);
--                 TokenRing.System is the ring of n nodes, TokenRing.Queue the queue of one
--   RaftLog       internal/consensus/consensus.go; RaftLog.Proposal is ProposeEntry with its wait,
--                 RaftLog.Epoch one leader's term as a system of nodes and messages
--   Transport     RPCClient of internal/transport/transport.go and the coordinator's rpcClient;
--                 Transport.Calls is the Send* methods and NodeRPC
--   Coordinator   internal/coordinator/coordinator.go; Coordinator.Wiring is SetupInProcessComm,
--                 Coordinator.Rpc is SetupRPCComm
--   ChatServer    internal/chatserver/chatserver.go
--   ChatClient    internal/client/client.go
--   Relay         two chat servers that relay to each other, as in demo/demo_cross_server_chat/main.go
--   Cli           the -peers flag and the command loop of cmd/coordinator/main.go
-- The files called Examples run the definitions on small inputs.
--
-- How code becomes definitions. A method that runs under a mutex is one function on the record of
-- its struct; callbacks that it starts, and responses that it sends on channels, are returned as
-- values. Go panics (an index or a slice out of range) are `none`. The clock, random draws and the
-- fate of an RPC are arguments. Identifiers, terms, counts and sequence numbers are ℕ, and what the
-- code sets to -1 is ℤ; neither wraps around. A map with text keys is an association list, one with
-- node numbers as keys a function with the zero value elsewhere. Messages on the way are a list from
-- which any element is received or lost next, so every order of delivery is covered; in
-- RaftLog.Epoch a message also stays on the way after its delivery. Goroutines that run between two
-- critical sections of one method are made explicit where it matters: in `wait_for_majority` by the
-- events of other methods, and in `get_messages` by the two states of its two locks.
--
-- In Coordinator.Rpc each send is a goroutine: the sends run in any order, and a failed dial drops one.
-- rpcClient has no lock on its map; calls of it are taken not to overlap.
--
-- RaftLog.Epoch is one leader's term: the leader, all other nodes, and the messages between them.
-- Each of its steps is one critical section of ProposeEntry, sendAppendEntriesToAll, waitForMajority
-- or HandleAppendEntries, so proposals and rounds of requests overlap freely. The theorems take a
-- term that starts where no node has an entry of it and the other nodes' logs match the leader's
-- (IsFresh); what the leader of an earlier term still has on the way is not part of it, and how the
-- election finds the leader is Election.Cluster.
--
-- Loops are structural, but for three with fuel: `apply_loop` gets the number of entries between
-- lastApplied and commitIndex, since each turn applies one, `catch_up` one more than the leader's
-- next index, since each refusal lowers that index, and `emit`, which writes the number n in
-- decimal, n turns, since each turn divides by ten.
--
-- Not modelled: output, listeners and dialing, the package flag, cmd/chatserver and cmd/client, the
-- other demos, white space and letters beyond ASCII in what is typed, the channels' capacities, and
-- Start and Stop, which start and end goroutines. A network that is better than the one modelled (no
-- loss, say) is a special case of it.
pub mod Common
pub mod Types
pub mod Election
pub mod TokenRing
pub mod RaftLog
pub mod Relay
pub mod Cli
pub mod Transport
pub mod Coordinator
pub mod ChatServer
pub mod ChatClient

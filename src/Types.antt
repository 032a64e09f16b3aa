-- ===== src/Types.antt =====
-- internal/types/types.go: node states, the messages of the three algorithms, log entries and the
-- routing table. Node numbers, terms and sequence numbers start at 0 and grow, so they are ℕ; what
-- the program sets to -1 is ℤ. A time is a number of nanoseconds.
use ensemble_chat.Common.{ℕ, ℤ, Bool, List, [], String, Dict}

-- `NodeState`, with `Follower` the zero value.
pub data NodeState : Type 0 where
  follower candidate leader : NodeState

-- `NodeState.String`
unfoldable pub to_string : NodeState → String
to_string follower = "FOLLOWER"
to_string candidate = "CANDIDATE"
to_string leader = "LEADER"

pub record VoteRequest : Type 0 where
  pub term : ℕ
  pub candidate_id : ℕ

pub record VoteResponse : Type 0 where
  pub term : ℕ
  pub vote_granted : Bool
  pub voter_id : ℕ

pub record Heartbeat : Type 0 where
  pub term : ℕ
  pub leader_id : ℕ

pub data ChangeType : Type 0 where
  add_server add_room : ChangeType

pub record LogEntry : Type 0 where
  pub term : ℕ
  pub index : ℕ
  pub change : ChangeType
  pub key : String
  pub value : String

pub record AppendEntriesRequest : Type 0 where
  pub term : ℕ
  pub leader_id : ℕ
  pub prev_log_index : ℤ
  pub prev_log_term : ℤ
  pub entries : List LogEntry
  pub leader_commit : ℤ

pub record AppendEntriesResponse : Type 0 where
  pub term : ℕ
  pub success : Bool
  pub follower_id : ℕ
  pub match_index : ℤ

pub record TokenMessage : Type 0 where
  pub seq_num : ℕ

pub record LockResponse : Type 0 where
  pub resource : String
  pub granted : Bool
  pub holder : String
  pub reason : String

pub record RoutingEntry : Type 0 where
  pub room_name : String
  pub server_addr : String
  pub created_at : ℕ

pub record RoutingTable : Type 0 where
  pub servers : Dict String
  pub rooms : Dict RoutingEntry

-- `NewRoutingTable`
abbrev pub new_routing_table : RoutingTable
new_routing_table = record { servers = []; rooms = [] }

-- ===== src/Cli/Commands.antt =====
-- The command loop of cmd/coordinator/main.go: how a line is read, and what it does to the node. The
-- strings that are printed are left out; a reply holds the values in them.
use ensemble_chat.Common.{
  ℕ, ℤ, Bool, Option, none, some, List, [], ◌∷◌, String, length, if◌then◌else◌,
}
use ensemble_chat.Types.{ChangeType, add_room, add_server, NodeState, LockResponse, RoutingTable}
use ensemble_chat.Election.{get_state, is_leader}
use ensemble_chat.TokenRing.{Effect, get_status, get_next_node}
use ensemble_chat.RaftLog.{get_log, get_commit_index, get_routing_table}
use ensemble_chat.RaftLog.Proposal.{WaitEvent, Sent}
use ensemble_chat.Coordinator.{CoordinatorNode, kill, acquire_lock, release_lock, propose_change}
use ensemble_chat.Cli.Text.{is_empty, trim_space, fields, is_word}

pub data Command : Type 0 where
  blank help status token state quit : Command
  lock unlock : (resource requester : String) → Command
  propose : (tx_id : String) → ChangeType → (key value : String) → Command
  usage : Command
  unknown_change : (change : String) → Command
  unknown : (cmd : String) → Command

-- `len(parts) != 3`
abbrev lock_args : (String → String → Command) → List String → Command
lock_args command (resource ∷ requester ∷ []) = command resource requester
lock_args command _ = usage

-- The switch on `parts[2]`
unfoldable pub read_change : (tx_id change key value : String) → Command
unfolding is_word
read_change tx_id change key value =
    if is_word change "add_room"
    then propose tx_id add_room key value
    else if is_word change "add_server"
    then propose tx_id add_server key value
    else unknown_change change

-- `len(parts) != 5`
abbrev propose_args : List String → Command
propose_args (tx_id ∷ change ∷ key ∷ value ∷ []) = read_change tx_id change key value
propose_args _ = usage

-- The switch on `cmd`, where `args` are the parts after the first.
unfoldable pub dispatch : (cmd : String) (args : List String) → Command
unfolding is_word
dispatch cmd args =
    if is_word cmd "help"
    then help
    else if is_word cmd "status"
    then status
    else if is_word cmd "lock"
    then lock_args lock args
    else if is_word cmd "unlock"
    then lock_args unlock args
    else if is_word cmd "token"
    then token
    else if is_word cmd "propose"
    then propose_args args
    else if is_word cmd "state"
    then state
    else if is_word cmd "quit"
    then quit
    else if is_word cmd "exit"
    then quit
    else unknown cmd

-- `none`: `parts[0]` panics.
unfoldable pub read_command : (text : String) → Option Command
unfolding trim_space fields dispatch
read_command text =
    if is_empty (trim_space text)
    then some blank
    else elim (fields (trim_space text)) [ [] ↦ none | cmd ∷ args ↦ some (dispatch cmd args) ]

pub data Reply : Type 0 where
  nothing shown_help shown_usage stopped : Reply
  shown_status : NodeState → (term : ℕ) (leader_id : ℤ) (leads : Bool) → Reply
  locked : LockResponse → Reply
  -- The loop waits in `AcquireLock`.
  waiting : Reply
  unlocked : Bool → Reply
  shown_token : (has_token in_cs : Bool) (resource holder : String) (next_node : ℕ) → Reply
  proposed : Bool → Reply
  shown_state : RoutingTable → (entries : ℕ) (commit_index : ℤ) → Reply
  shown_unknown : String → Reply

-- The node after a command, the reply, and what the node sends by its token ring and its Raft log.
pub record Turn : Type 0 where
  pub node : CoordinatorNode
  pub reply : Reply
  pub ring_effects : List Effect
  pub sent : List Sent

abbrev pub only_reply : CoordinatorNode → Reply → Turn
only_reply n reply = record { node = n; reply = reply; ring_effects = []; sent = [] }

abbrev lock_reply : Option LockResponse → Reply
lock_reply none = waiting
lock_reply (some resp) = locked resp

-- `none`: the command panics. `ticket`, `clock` and `es` are those of `request_access` and
-- `propose_entry`.
unfoldable pub run_command :
    CoordinatorNode → Command → (ticket : ℕ) (clock : ℕ → ℕ) → List WaitEvent → Option Turn
unfolding get_state is_leader get_status get_log get_commit_index get_routing_table acquire_lock
    release_lock propose_change kill
run_command n blank ticket clock es = some (only_reply n nothing)
run_command n help ticket clock es = some (only_reply n shown_help)
run_command n status ticket clock es =
    let (node_state, term, leader_id) = get_state n.election in
    some (only_reply n (shown_status node_state term leader_id (is_leader n.election)))
run_command n (lock resource requester) ticket clock es =
    let (n', resp) = acquire_lock n resource requester ticket in
    some (only_reply n' (lock_reply resp))
run_command n (unlock resource requester) ticket clock es =
    elim (release_lock n resource requester) [
      | none ↦ none
      | some (n', ring_effects, ok) ↦
          some (record { node = n'; reply = unlocked ok; ring_effects = ring_effects; sent = [] })
    ]
run_command n token ticket clock es =
    let (has_token, in_cs, resource, holder) = get_status n.token_ring in
    elim (get_next_node n.token_ring) [
      | none ↦ none
      | some next_node ↦ some (only_reply n (shown_token has_token in_cs resource holder next_node))
    ]
run_command n (propose tx_id change key value) ticket clock es =
    elim (propose_change n change key value clock es) [
      | none ↦ none
      | some (n', success, sent) ↦
          some (record { node = n'; reply = proposed success; ring_effects = []; sent = sent })
    ]
run_command n state ticket clock es = some (
    only_reply n (
      shown_state (get_routing_table n.raft_log) (length (get_log n.raft_log))
        (get_commit_index n.raft_log)))
run_command n quit ticket clock es = some (only_reply (kill n) stopped)
run_command n usage ticket clock es = some (only_reply n shown_usage)
run_command n (unknown_change change) ticket clock es = some (only_reply n (shown_unknown change))
run_command n (unknown cmd) ticket clock es = some (only_reply n (shown_unknown cmd))

-- One turn of the loop.
unfoldable pub run_line :
    CoordinatorNode → (text : String) (ticket : ℕ) (clock : ℕ → ℕ) → List WaitEvent → Option Turn
unfolding read_command run_command
run_line n text ticket clock es = elim (read_command text) [
  | none ↦ none
  | some command ↦ run_command n command ticket clock es
]

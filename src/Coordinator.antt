-- ===== src/Coordinator.antt =====
-- internal/coordinator/coordinator.go: one coordinator node with its three modules. Printing, listeners
-- and channels are left out.
pub mod Ensemble
pub mod Wiring
pub mod Killed
pub mod Rpc
pub mod Leading
mod Examples
use ensemble_chat.Common.{
  ℕ, ◌≡◌, Bool, true, false, not, ◌&&◌, Option, none, some, List, [], ◌∷◌, ◌++◌, String, leb, ◌==◌,
  if◌then◌else◌,
}
use ensemble_chat.Types.{
  ChangeType, LockResponse, VoteRequest, VoteResponse, Heartbeat, AppendEntriesRequest,
  AppendEntriesResponse, TokenMessage,
}
use ensemble_chat.Election.{
  ElectionNode, Effect, on_send_vote_req, on_send_vote_resp, on_send_heartbeat, on_become_leader,
  on_become_follower, new_election_node, is_leader,
}
use ensemble_chat.TokenRing.{
  TokenRingManager, Effect as RingEffect, new_token_ring_manager, request_access, release_access,
}
use ensemble_chat.RaftLog.{RaftLog, new_raft_log, become_leader, become_follower}
use ensemble_chat.RaftLog.Proposal.{WaitEvent, Sent, propose_entry}

pub record CoordinatorNode : Type 0 where
  pub id : ℕ
  pub election : ElectionNode
  pub token_ring : TokenRingManager
  pub raft_log : RaftLog
  pub alive : Bool

-- `sort.Ints`
unfoldable pub insert_sorted : ℕ → List ℕ → List ℕ
insert_sorted x [] = x ∷ []
insert_sorted x (y ∷ ys) = let rest = insert_sorted x ys in if leb x y then x ∷ y ∷ ys else y ∷ rest

unfoldable pub sort : List ℕ → List ℕ
unfolding insert_sorted
sort [] = []
sort (x ∷ xs) = insert_sorted x (sort xs)

-- `allNodes` of `NewCoordinatorNode`
unfoldable pub all_nodes : (id : ℕ) (peer_ids : List ℕ) → List ℕ
unfolding sort
all_nodes id peer_ids = sort (id ∷ peer_ids)

-- `now` and `draw` are those of `NewElectionNode`.
abbrev pub start_node :
    (id : ℕ) (peer_ids : List ℕ) (now draw : ℕ) (ring : List ℕ) (holder : ℕ) → CoordinatorNode
start_node id peer_ids now draw ring holder = record {
  id = id;
  election = new_election_node id peer_ids now draw;
  token_ring = new_token_ring_manager id ring holder;
  raft_log = new_raft_log id peer_ids;
  alive = true;
}

-- `none`: `allNodes[0]` panics.
unfoldable pub new_coordinator_node :
    (id : ℕ) (peer_ids : List ℕ) (now draw : ℕ) → Option CoordinatorNode
unfolding all_nodes
new_coordinator_node id peer_ids now draw = elim (all_nodes id peer_ids) [
  | [] ↦ none
  | holder ∷ rest ↦ some (start_node id peer_ids now draw (holder ∷ rest) holder)
]

-- The callbacks that `NewCoordinatorNode` sets: what one that runs does to the Raft log.
unfoldable pub run_callback : RaftLog → Effect → RaftLog
run_callback r (on_become_leader term) = become_leader r term
run_callback r (on_become_follower leader_id term) = become_follower r term
run_callback r (on_send_vote_req _) = r
run_callback r (on_send_vote_resp _ _) = r
run_callback r (on_send_heartbeat _) = r

-- `Kill`, and what `Stop` does to the same state
unfoldable pub kill : CoordinatorNode → CoordinatorNode
kill n = record n { alive = false }

unfoldable pub is_alive : CoordinatorNode → Bool
is_alive n = n.alive

unfoldable pub acquire_lock :
    CoordinatorNode
    → (resource requester : String) (ticket : ℕ) → CoordinatorNode × Option LockResponse
unfolding request_access
acquire_lock n resource requester ticket =
    let (t, resp) = request_access n.token_ring resource requester ticket in
    (record n { token_ring = t }, resp)

unfoldable pub release_lock :
    CoordinatorNode
    → (resource requester : String) → Option (CoordinatorNode × List RingEffect × Bool)
release_lock n resource requester = elim (release_access n.token_ring resource requester) [
  | none ↦ none
  | some (t, es, done) ↦ some (record n { token_ring = t }, es, done)
]

-- `ProposeChange` and `ProposeChangeRPC`, which are the same
unfoldable pub propose_change :
    CoordinatorNode
    → ChangeType
    → (key value : String) → (clock : ℕ → ℕ) → List WaitEvent
    → Option (CoordinatorNode × Bool × List Sent)
propose_change n change key value clock es =
    if is_leader n.election
    then elim (propose_entry n.raft_log change key value clock es) [
      | none ↦ none
      | some (r, done, sent) ↦ some (record n { raft_log = r }, done, sent)
    ]
    else some (n, false, [])

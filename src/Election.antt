-- ===== src/Election.antt =====
-- internal/election/election.go: one node of the Raft leader election. The handlers run under the
-- node's mutex, so each is one function on its state; the callbacks it starts are returned in the
-- order of the calls, and the time and the random timeout are arguments.
pub mod Handlers
pub mod Cluster
pub mod Counting
pub mod Invariant
pub mod Safety
pub mod Bounds
mod Examples
use ensemble_chat.Common.{
  ℕ, ◌+◌, ◌-◌, ◌/◌, ℤ, pos, minus_one, eq_ℤ, Bool, true, false, ◌&&◌, ◌||◌, List, [], ◌∷◌, length,
  ltb, leb, ◌==◌, if◌then◌else◌,
}
use ensemble_chat.Types.{
  NodeState, follower, candidate, leader, VoteRequest, VoteResponse, Heartbeat,
}

-- HeartbeatInterval, ElectionTimeoutMin and ElectionTimeoutMax, in nanoseconds.
abbrev pub heartbeat_interval : ℕ
heartbeat_interval = 500_000_000

abbrev pub election_timeout_min : ℕ
election_timeout_min = 2_000_000_000

abbrev pub election_timeout_max : ℕ
election_timeout_max = 4_000_000_000

-- `randomElectionTimeout`, where `draw` stands for `rand.Int63n(spread)`, a number below the spread.
unfoldable pub random_election_timeout : (draw : ℕ) → ℕ
random_election_timeout draw = election_timeout_min + draw

-- The channels belong to the network, and the log prefix to the output.
pub record ElectionNode : Type 0 where
  pub id : ℕ
  pub peers : List ℕ
  pub current_term : ℕ
  pub voted_for : ℤ
  pub state : NodeState
  pub vote_count : ℕ
  pub leader_id : ℤ
  pub last_heartbeat : ℕ
  pub election_timeout : ℕ

-- The callbacks that a handler starts.
pub data Effect : Type 0 where
  on_send_vote_req : VoteRequest → Effect
  on_send_vote_resp : (target : ℕ) → VoteResponse → Effect
  on_send_heartbeat : Heartbeat → Effect
  on_become_leader : (term : ℕ) → Effect
  on_become_follower : (leader_id term : ℕ) → Effect

unfoldable pub new_election_node : (id : ℕ) (peers : List ℕ) (now draw : ℕ) → ElectionNode
unfolding random_election_timeout
new_election_node id peers now draw = record {
  id = id;
  peers = peers;
  current_term = 0;
  voted_for = minus_one;
  state = follower;
  vote_count = 0;
  leader_id = minus_one;
  last_heartbeat = now;
  election_timeout = random_election_timeout draw;
}

unfoldable pub get_state : ElectionNode → NodeState × ℕ × ℤ
get_state e = (e.state, e.current_term, e.leader_id)

abbrev pub is_state_leader : NodeState → Bool
is_state_leader leader = true
is_state_leader _ = false

abbrev pub is_state_candidate : NodeState → Bool
is_state_candidate candidate = true
is_state_candidate _ = false

abbrev pub is_state_follower : NodeState → Bool
is_state_follower follower = true
is_state_follower _ = false

unfoldable pub is_leader : ElectionNode → Bool
is_leader e = is_state_leader e.state

unfoldable pub start_election : ElectionNode → (now draw : ℕ) → ElectionNode × List Effect
unfolding random_election_timeout
start_election e now draw = (
  record e {
    current_term = e.current_term + 1;
    state = candidate;
    voted_for = pos e.id;
    vote_count = 1;
    last_heartbeat = now;
    election_timeout = random_election_timeout draw;
  },
  on_send_vote_req (record { term = e.current_term + 1; candidate_id = e.id }) ∷ [],
)

unfoldable pub send_heartbeat : ElectionNode → List Effect
send_heartbeat e = on_send_heartbeat (record { term = e.current_term; leader_id = e.id }) ∷ []

unfoldable pub check_election_timeout : ElectionNode → (now draw : ℕ) → ElectionNode × List Effect
unfolding start_election send_heartbeat
check_election_timeout e now draw =
    if is_state_leader e.state
    then (e, send_heartbeat e)
    else if ltb e.election_timeout (now - e.last_heartbeat)
    then start_election e now draw
    else (e, [])

-- The first `if` of `handleVoteRequest`.
unfoldable pub step_down : ElectionNode → VoteRequest → ElectionNode
step_down e req =
    if ltb e.current_term req.term
    then record e {
      current_term = req.term;
      state = follower;
      voted_for = minus_one;
      leader_id = minus_one;
    }
    else e

-- The test that grants the vote.
unfoldable pub can_grant : ElectionNode → VoteRequest → Bool
can_grant e req =
    leb e.current_term req.term
    && (eq_ℤ e.voted_for minus_one || eq_ℤ e.voted_for (pos req.candidate_id))

unfoldable pub grant_vote : ElectionNode → VoteRequest → (now : ℕ) → ElectionNode × List Effect
unfolding can_grant
grant_vote e req now =
    let e' =
      if can_grant e req
      then record e { voted_for = pos req.candidate_id; last_heartbeat = now }
      else e in
    let resp : VoteResponse = record {
      term = e'.current_term;
      vote_granted = can_grant e req;
      voter_id = e'.id;
    } in
    (e', on_send_vote_resp req.candidate_id resp ∷ [])

unfoldable pub handle_vote_request :
    ElectionNode → VoteRequest → (now : ℕ) → ElectionNode × List Effect
unfolding step_down grant_vote
handle_vote_request e req now = grant_vote (step_down e req) req now

unfoldable pub become_leader : ElectionNode → ElectionNode × List Effect
become_leader e =
    (record e { state = leader; leader_id = pos e.id }, on_become_leader e.current_term ∷ [])

abbrev pub majority : (total_nodes : ℕ) → ℕ
majority total_nodes = total_nodes / 2 + 1

-- What `handleVoteResponse` does with a vote for the current term.
unfoldable pub count_vote : ElectionNode → ElectionNode × List Effect
unfolding become_leader
count_vote e =
    let e' : ElectionNode = record e { vote_count = e.vote_count + 1 } in
    if leb (majority (length e'.peers + 1)) e'.vote_count then become_leader e' else (e', [])

unfoldable pub handle_vote_response : ElectionNode → VoteResponse → ElectionNode × List Effect
unfolding count_vote
handle_vote_response e resp =
    if is_state_candidate e.state
    then (if ltb e.current_term resp.term
        then (
          record e {
            current_term = resp.term;
            state = follower;
            voted_for = minus_one;
            vote_count = 0;
          },
          [],
        )
        else if resp.term == e.current_term && resp.vote_granted
        then count_vote e
        else (e, []))
    else (e, [])

unfoldable pub handle_heartbeat : ElectionNode → Heartbeat → (now : ℕ) → ElectionNode × List Effect
handle_heartbeat e hb now =
    if ltb hb.term e.current_term
    then (e, [])
    else let was_follower_of_same_leader =
        is_state_follower e.state && eq_ℤ e.leader_id (pos hb.leader_id) in
      let e' : ElectionNode = record e {
        current_term = (if ltb e.current_term hb.term then hb.term else e.current_term);
        voted_for = (if ltb e.current_term hb.term then minus_one else e.voted_for);
        state = follower;
        leader_id = pos hb.leader_id;
        last_heartbeat = now;
        vote_count = 0;
      } in
      (
        e',
        (if was_follower_of_same_leader then [] else on_become_follower hb.leader_id hb.term ∷ []),
      )

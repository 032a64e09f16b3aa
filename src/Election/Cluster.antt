-- ===== src/Election/Cluster.antt =====
-- The election among `n` nodes numbered from 0: the nodes of internal/election/election.go, joined
-- by the callbacks of `SetupInProcessComm` (internal/coordinator/coordinator.go). A packet stands for
-- a message that waits in a channel or on the way to it: it is received once, in any order, or lost.
use ensemble_chat.Common.{
  ℕ, zero, suc, ◌<◌, ◌≡◌, ◌&&◌, Option, none, some, List, [], ◌∷◌, ◌++◌, ltb, ◌==◌, if◌then◌else◌,
}
use ensemble_chat.Common.Family.{update}
use ensemble_chat.Types.{VoteRequest, VoteResponse, Heartbeat}
use ensemble_chat.Election.{
  ElectionNode, Effect, on_send_vote_req, on_send_vote_resp, on_send_heartbeat, on_become_leader,
  on_become_follower, new_election_node, check_election_timeout, handle_vote_request,
  handle_vote_response, handle_heartbeat,
}

pub data Packet : Type 0 where
  vote_request : (dst : ℕ) → VoteRequest → Packet
  vote_response : (dst : ℕ) → VoteResponse → Packet
  heartbeat : (dst : ℕ) → Heartbeat → Packet

abbrev pub dst : Packet → ℕ
dst (vote_request d _) = d
dst (vote_response d _) = d
dst (heartbeat d _) = d

-- To every node but the sender.
unfoldable pub broadcast : (n src : ℕ) → (ℕ → Packet) → List Packet
broadcast zero src packet = []
broadcast (suc n) src packet =
    let rest = broadcast n src packet in if n == src then rest else packet n ∷ rest

-- What `OnSendVoteReq`, `OnSendVoteResp` and `OnSendHeartbeat` push into the channels of the peers.
unfoldable pub outgoing : (n src : ℕ) → List Effect → List Packet
outgoing n src [] = []
outgoing n src (on_send_vote_req req ∷ es) =
    broadcast n src (λ d. vote_request d req) ++ outgoing n src es
outgoing n src (on_send_vote_resp target resp ∷ es) =
    (if ltb target n then vote_response target resp ∷ [] else []) ++ outgoing n src es
outgoing n src (on_send_heartbeat hb ∷ es) =
    broadcast n src (λ d. heartbeat d hb) ++ outgoing n src es
outgoing n src (on_become_leader _ ∷ es) = outgoing n src es
outgoing n src (on_become_follower _ _ ∷ es) = outgoing n src es

-- Who voted for whom in which term. No node reads this record; it is kept for the proofs.
abbrev pub Ballots : Type 0
Ballots = ℕ → ℕ → Option ℕ

unfoldable pub cast_vote : Ballots → (voter term choice : ℕ) → Ballots
cast_vote b voter term choice v t = if v == voter && t == term then some choice else b v t

-- A candidate votes for itself when it asks for votes; a voter votes by a granting response.
unfoldable pub cast_votes : Ballots → List Effect → Ballots
cast_votes b [] = b
cast_votes b (on_send_vote_req req ∷ es) =
    cast_votes (cast_vote b req.candidate_id req.term req.candidate_id) es
cast_votes b (on_send_vote_resp target resp ∷ es) =
    cast_votes (if resp.vote_granted then cast_vote b resp.voter_id resp.term target else b) es
cast_votes b (on_send_heartbeat _ ∷ es) = cast_votes b es
cast_votes b (on_become_leader _ ∷ es) = cast_votes b es
cast_votes b (on_become_follower _ _ ∷ es) = cast_votes b es

pub record System : Type 0 where
  pub nodes : ℕ → ElectionNode
  pub net : List Packet
  pub ballots : Ballots

-- The handler that `run` calls for a message from a channel.
unfoldable pub receive : ElectionNode → Packet → (now : ℕ) → ElectionNode × List Effect
receive e (vote_request _ req) now = handle_vote_request e req now
receive e (vote_response _ resp) now = handle_vote_response e resp
receive e (heartbeat _ hb) now = handle_heartbeat e hb now

-- Node `i` goes over to a new state and starts its callbacks; `net` is what was left on the way.
unfoldable pub act : (n : ℕ) → System → List Packet → (i : ℕ) → ElectionNode × List Effect → System
act n s net i (e, es) = record {
  nodes = update s.nodes i e;
  net = net ++ outgoing n i es;
  ballots = cast_votes s.ballots es;
}

-- One turn of the `select` in the `run` of some node, or the loss of a message.
pub data Step (n : ℕ) (s : System) : System → Type 0 where
  tick :
      (i now draw : ℕ)
      → i < n
      → Step n s (act n s s.net i (check_election_timeout (s.nodes i) now draw))
  recv :
      (pre : List Packet) (p : Packet) (post : List Packet) (now : ℕ)
      → s.net ≡ pre ++ p ∷ post
      → dst p < n
      → Step n s (act n s (pre ++ post) (dst p) (receive (s.nodes (dst p)) p now))
  lose :
      (pre : List Packet) (p : Packet) (post : List Packet)
      → s.net ≡ pre ++ p ∷ post
      → Step n s (record s { net = pre ++ post })

-- All of 0 … n - 1 but `i`.
unfoldable pub others : (n i : ℕ) → List ℕ
others zero i = []
others (suc n) i = let rest = others n i in if n == i then rest else n ∷ rest

-- `NewElectionNode` for each node, started at time `now` with the random draws `draws`.
unfoldable pub init : (n now : ℕ) → (draws : ℕ → ℕ) → System
init n now draws = record {
  nodes = λ i. new_election_node i (others n i) now (draws i);
  net = [];
  ballots = λ v t. none;
}

-- A state that `k` steps lead to.
pub data Reach (n now : ℕ) (draws : ℕ → ℕ) : ℕ → System → Type 0 where
  start : Reach n now draws 0 (init n now draws)
  next : {k : ℕ} {s t : System} → Reach n now draws k s → Step n s t → Reach n now draws (suc k) t

-- ===== src/Coordinator/Rpc.antt =====
-- `SetupRPCComm` and the `Handle…` methods (internal/coordinator/coordinator.go): the callbacks as calls
-- to the peers, and what a node does when it is called. Each send is a goroutine of its own, so the lists
-- of calls say which goroutines start, and not in which order they run. `rpcClient` reads and writes the map
-- of clients without a lock; its calls are taken here one after another.
pub mod Reach
pub mod Fates
pub mod Refinement
use ensemble_chat.Common.{ℕ, Option, none, some, List, [], ◌∷◌, ◌++◌}
use ensemble_chat.Types.{AppendEntriesRequest, AppendEntriesResponse}
use ensemble_chat.Election.{
  Effect, on_send_vote_req, on_send_vote_resp, on_send_heartbeat, on_become_leader,
  on_become_follower,
}
use ensemble_chat.TokenRing.{Effect as RingEffect, on_pass_token, respond}
use ensemble_chat.Election.Cluster.{Packet, vote_request, vote_response, heartbeat}
use ensemble_chat.TokenRing.System.{Flight}
use ensemble_chat.Transport.{RpcClient, Clients, rpc_client}
use ensemble_chat.Transport.Calls.{
  Call, RpcHandler, send_vote_request, send_vote_response, send_heartbeat, send_append_entries,
  send_append_entries_resp, send_token,
}

-- What a `Handle…` method does: a push into a channel of the election or the token ring, a call of the
-- Raft log, or a push into its channel of responses.
pub data Inbound : Type 0 where
  election_ch : Packet → Inbound
  token_ch : Flight → Inbound
  append_entries : (id : ℕ) → AppendEntriesRequest → Inbound
  append_entries_resp_ch : (id : ℕ) → AppendEntriesResponse → Inbound

-- The handler of node `id`.
abbrev pub coordinator_handler : (id : ℕ) → RpcHandler Inbound
coordinator_handler id = record {
  handle_vote_request = λ req. election_ch (vote_request id req);
  handle_vote_response = λ resp. election_ch (vote_response id resp);
  handle_heartbeat = λ hb. election_ch (heartbeat id hb);
  handle_append_entries = λ req. append_entries id req;
  handle_append_entries_resp = λ resp. append_entries_resp_ch id resp;
  handle_token_pass = λ tok. token_ch (record { dst = id; tok = tok });
}

-- `c := n.rpcClient(peerID); if c != nil { go c.Send…(…) }`
unfoldable pub call_peer : Clients → (peer_id : ℕ) → (RpcClient → Call) → Clients × List Call
unfolding rpc_client
call_peer cs peer_id send =
    let (cs', c) = rpc_client cs peer_id in (cs', elim c [ none ↦ [] | some c ↦ send c ∷ [] ])

-- The loops over `n.PeerAddrs`, whose keys come in the order `range`.
unfoldable pub call_peers : Clients → (range : List ℕ) → (RpcClient → Call) → Clients × List Call
unfolding call_peer
call_peers cs [] send = (cs, [])
call_peers cs (peer_id ∷ range) send =
    let (cs', calls) = call_peer cs peer_id send in
    let (cs'', more) = call_peers cs' range send in (cs'', calls ++ more)

-- One callback of the election module.
unfoldable pub election_callback : Clients → Effect → (range : List ℕ) → Clients × List Call
unfolding call_peer call_peers
election_callback cs (on_send_vote_req req) range =
    call_peers cs range (λ c. send_vote_request c req)
election_callback cs (on_send_vote_resp target resp) range =
    call_peer cs target (λ c. send_vote_response c resp)
election_callback cs (on_send_heartbeat hb) range = call_peers cs range (λ c. send_heartbeat c hb)
election_callback cs (on_become_leader _) range = (cs, [])
election_callback cs (on_become_follower _ _) range = (cs, [])

-- Several callbacks, each with the order of its loop.
unfoldable pub election_rpc : Clients → List (Effect × List ℕ) → Clients × List Call
unfolding election_callback
election_rpc cs [] = (cs, [])
election_rpc cs ((e, range) ∷ es) =
    let (cs', calls) = election_callback cs e range in
    let (cs'', more) = election_rpc cs' es in (cs'', calls ++ more)

-- `OnPassToken`
unfoldable pub token_rpc : Clients → List RingEffect → Clients × List Call
unfolding call_peer
token_rpc cs [] = (cs, [])
token_rpc cs (on_pass_token next_node tok ∷ es) =
    let (cs', calls) = call_peer cs next_node (λ c. send_token c tok) in
    let (cs'', more) = token_rpc cs' es in (cs'', calls ++ more)
token_rpc cs (respond _ _ ∷ es) = token_rpc cs es

-- `OnSendAppendEntries` and `OnSendAppendEntriesResp`
unfoldable pub append_entries_rpc :
    Clients → (follower_id : ℕ) → AppendEntriesRequest → Clients × List Call
unfolding call_peer
append_entries_rpc cs follower_id req = call_peer cs follower_id (λ c. send_append_entries c req)

unfoldable pub append_entries_resp_rpc :
    Clients → (leader_id : ℕ) → AppendEntriesResponse → Clients × List Call
unfolding call_peer
append_entries_resp_rpc cs leader_id resp =
    call_peer cs leader_id (λ c. send_append_entries_resp c resp)

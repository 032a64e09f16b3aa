-- ===== src/Transport/Calls.antt =====
-- internal/transport/transport.go: the `Send…` methods of a client, the service `NodeRPC` with the
-- handler behind it, and how net/rpc finds the method of a call.
use ensemble_chat.Common.{Bool, Option, none, some, List, [], ◌∷◌, String, str_eq, if◌then◌else◌}
use ensemble_chat.Types.{
  VoteRequest, VoteResponse, Heartbeat, AppendEntriesRequest, AppendEntriesResponse, TokenMessage,
}
use ensemble_chat.Transport.{RpcClient}

-- `args` of `callAsync`
pub data Args : Type 0 where
  vote_request_args : VoteRequest → Args
  vote_response_args : VoteResponse → Args
  heartbeat_args : Heartbeat → Args
  append_entries_args : AppendEntriesRequest → Args
  append_entries_resp_args : AppendEntriesResponse → Args
  token_args : TokenMessage → Args

-- What `callAsync` has to send. Whether its dial succeeds is `dialed` in `delivered` below.
pub record Call : Type 0 where
  pub addr : String
  pub method : String
  pub args : Args

abbrev pub call : RpcClient → (method : String) → Args → Call
call c method args = record { addr = c.addr; method = method; args = args }

-- Goroutines that run `callAsync`, in the order in which they run, each with whether it reaches the peer: a
-- failed dial drops the call.
unfoldable pub delivered : List (Call × Bool) → List Call
delivered [] = []
delivered ((c, dialed) ∷ runs) = let rest = delivered runs in if dialed then c ∷ rest else rest

unfoldable pub send_vote_request : RpcClient → VoteRequest → Call
send_vote_request c req = call c "Node.RequestVote" (vote_request_args req)

unfoldable pub send_vote_response : RpcClient → VoteResponse → Call
send_vote_response c resp = call c "Node.RespondVote" (vote_response_args resp)

unfoldable pub send_heartbeat : RpcClient → Heartbeat → Call
send_heartbeat c hb = call c "Node.SendHeartbeat" (heartbeat_args hb)

unfoldable pub send_append_entries : RpcClient → AppendEntriesRequest → Call
send_append_entries c req = call c "Node.AppendEntries" (append_entries_args req)

unfoldable pub send_append_entries_resp : RpcClient → AppendEntriesResponse → Call
send_append_entries_resp c resp = call c "Node.AppendEntriesReply" (append_entries_resp_args resp)

unfoldable pub send_token : RpcClient → TokenMessage → Call
send_token c tok = call c "Node.PassToken" (token_args tok)

-- The interface `RPCHandler`, where `R` is what a handler does.
pub record RpcHandler {ℓ} (R : Type ℓ) : Type ℓ where
  pub handle_vote_request : VoteRequest → R
  pub handle_vote_response : VoteResponse → R
  pub handle_heartbeat : Heartbeat → R
  pub handle_append_entries : AppendEntriesRequest → R
  pub handle_append_entries_resp : AppendEntriesResponse → R
  pub handle_token_pass : TokenMessage → R

-- The methods of `NodeRPC`, by name. `none`: no such method, or arguments of another type, which
-- net/rpc answers with an error.
unfoldable pub node_rpc {ℓ} : {R : Type ℓ} → RpcHandler R → (method : String) → Args → Option R
node_rpc h method (vote_request_args req) =
    if str_eq method "Node.RequestVote" then some (h.handle_vote_request req) else none
node_rpc h method (vote_response_args resp) =
    if str_eq method "Node.RespondVote" then some (h.handle_vote_response resp) else none
node_rpc h method (heartbeat_args hb) =
    if str_eq method "Node.SendHeartbeat" then some (h.handle_heartbeat hb) else none
node_rpc h method (append_entries_args req) =
    if str_eq method "Node.AppendEntries" then some (h.handle_append_entries req) else none
node_rpc h method (append_entries_resp_args resp) =
    if str_eq method "Node.AppendEntriesReply"
    then some (h.handle_append_entries_resp resp)
    else none
node_rpc h method (token_args tok) =
    if str_eq method "Node.PassToken" then some (h.handle_token_pass tok) else none

-- What a server with the listener on `addr` does for calls that reach it.
unfoldable pub serve_calls {ℓ} : {R : Type ℓ} → RpcHandler R → (addr : String) → List Call → List R
unfolding node_rpc
serve_calls h addr [] = []
serve_calls h addr (c ∷ cs) =
    let rest = serve_calls h addr cs in
    if str_eq c.addr addr
    then elim (node_rpc h c.method c.args) [ some r ↦ r ∷ rest | none ↦ rest ]
    else rest

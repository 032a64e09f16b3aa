-- ===== src/Transport.antt =====
-- internal/transport/transport.go: the client side of one peer, and the lazily made clients of a
-- coordinator (`rpcClient` of internal/coordinator/coordinator.go). The network is a parameter: `dialed`
-- says whether the dial succeeds, and `called` whether the call on the connection does.
pub mod Warnings
pub mod Calls
mod Examples
use ensemble_chat.Common.{
  ℕ, Bool, true, false, not, Option, none, some, List, [], ◌∷◌, ◌++◌, String, if◌then◌else◌,
}
use ensemble_chat.Common.Family.{update}

pub record RpcClient : Type 0 where
  pub addr : String
  pub reachable : Bool

unfoldable pub new_rpc_client : (addr : String) → RpcClient
new_rpc_client addr = record { addr = addr; reachable = true }

-- The lines that `callAsync` prints.
pub data Line : Type 0 where
  unreachable reachable_again call_failed : Line

unfoldable pub call_async : RpcClient → (dialed called : Bool) → RpcClient × List Line
call_async c dialed called =
    if dialed
    then (
      record c { reachable = true },
      (if c.reachable then [] else reachable_again ∷ [])
          ++ (if called then [] else call_failed ∷ []),
    )
    else (record c { reachable = false }, (if c.reachable then unreachable ∷ [] else []))

-- The fields that `rpcClient` reads and writes.
pub record Clients : Type 0 where
  pub peer_addrs : ℕ → Option String
  pub rpc_clients : ℕ → Option RpcClient

-- One call of `rpcClient`, with no other at the same time: the map has no lock. `none` where the Go code returns `nil`.
unfoldable pub rpc_client : Clients → (peer_id : ℕ) → Clients × Option RpcClient
unfolding new_rpc_client
rpc_client cs peer_id = elim (cs.rpc_clients peer_id) [
  | some c ↦ (cs, some c)
  | none ↦ elim (cs.peer_addrs peer_id) [
    | none ↦ (cs, none)
    | some addr ↦ (
      record cs { rpc_clients = update cs.rpc_clients peer_id (some (new_rpc_client addr)) },
      some (new_rpc_client addr),
    )
  ]
]
